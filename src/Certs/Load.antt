-- ===== src/Certs/Load.antt =====
-- src/certs.rs, `CertInfo::load`.
use certforge.Error.{certificate}
use certforge.Base.{[], ◌∷◌}
use certforge.Config.{FilePath}
use certforge.Crates.{Crates}
use certforge.Certs.{CertInfo, from_pem}
use certforge.Exec.{lift, ◌>>=◌}
use certforge.World.{read_text, Io, Env, ask}

unfoldable pub load_cert : Crates → Env → FilePath → Io CertInfo
load_cert crates env path = do
  pem_chain ←
      ask (read_text path) (λ h. env.text h path)
        (certificate "failed to read cert {}: {e}" (path ∷ []))
  lift (from_pem crates pem_chain)
