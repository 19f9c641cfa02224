-- ===== src/Config/Load.antt =====
-- src/config.rs, `Config::load`; the TOML parser is a parameter.
use certforge.Base.{Text, Bool, Option, [], ◌∷◌}
use certforge.Error.{config}
use certforge.Config.{FilePath, Config, ok_or}
use certforge.Config.Validate.{validate}
use certforge.Exec.{pure, lift, ◌>>=◌, ◌>>◌}
use certforge.World.{read_text, Io, Env, ask}

module _ (env : Env) (is_ip : Text → Bool) (from_toml : Text → Option Config) where
  unfoldable pub load_config : FilePath → Io Config
  load_config path = do
    content ←
        ask (read_text path) (λ h. env.text h path)
          (config "failed to read config file {}: {e}" (path ∷ []))
    c ← lift (ok_or (from_toml content) (config "failed to parse config: {e}" []))
    lift (validate is_ip c)
    pure c
