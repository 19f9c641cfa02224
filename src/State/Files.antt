-- ===== src/State/Files.antt =====
-- The state file between its saving and its loading (src/state.rs).
use certforge.Base.{
  Text, Bytes, same, same_refl, Option-cases, inl, inr, true, Option, none, some, [], ◌∷◌, ◌≡◌,
  Bool, ◌&&◌, refl, if◌then◌else◌, arith,
}
use certforge.Error.{ok}
use certforge.Config.{FilePath}
use certforge.Exec.{◌>>=◌}
use certforge.World.{
  Event, write_file, path_exists, read_file, read_text, read_metadata, Log, Env, ask, observe,
  attempt,
}
use certforge.State.{State, Json, state_path, read_state, load, save}

-- What a file holds for certain: what a request has successfully written to it, as long as there were
-- only looks at files since. A write that failed, a removal and any other request leave it open.
abbrev pub holds : (Log → Event → Bool) → FilePath → Log → Option Bytes
holds succeeds path [] = none
holds succeeds path (write_file p content ∷ h) =
    if succeeds h (write_file p content) && same p path then some content else none
holds succeeds path (path_exists _ ∷ h) = holds succeeds path h
holds succeeds path (read_file _ ∷ h) = holds succeeds path h
holds succeeds path (read_text _ ∷ h) = holds succeeds path h
holds succeeds path (read_metadata _ ∷ h) = holds succeeds path h
holds succeeds path (_ ∷ h) = none

-- Such a file is there, and `read_to_string` gives its content if that is UTF-8.
pub record KeepsFiles (is_utf8 : Bytes → Bool) (env : Env) : Type 0 where
  pub is_there :
      (h : Log) (path : FilePath) (content : Bytes)
      → holds env.succeeds path h ≡ some content
      → env.exists h path ≡ true
  pub is_kept :
      (h : Log) (path : FilePath) (content : Bytes)
      → holds env.succeeds path h ≡ some content
      → is_utf8 content ≡ true
      → env.text h path ≡ some content

module _ (is_utf8 : Bytes → Bool) (env : Env) (json : Json) (keeps : KeepsFiles is_utf8 env) where
  load-written :
      (state_dir : FilePath) (content : Bytes) (s : State) (h : Log)
      → holds env.succeeds (state_path state_dir) h ≡ some content
      → is_utf8 content ≡ true
      → json.from_str content ≡ some s
      → (load env json state_dir h).0 ≡ ok s
  unfolding load read_state ask observe ◌>>=◌
  load-written state_dir content s h w u j =
      rw (keeps.is_there h (state_path state_dir) content w)
        (rw (keeps.is_kept _ (state_path state_dir) content w u) (rw j refl))

  save-writes :
      (s : State) (state_dir : FilePath) (h : Log)
      → (save env json s state_dir h).0 ≡ ok tt
      → (content : Bytes) × (json.to_string_pretty s ≡ some content)
        × (holds env.succeeds (state_path state_dir) (save env json s state_dir h).1 ≡ some content)
  unfolding save attempt ◌>>=◌
  save-writes s state_dir h e = elim (Option-cases (json.to_string_pretty s)) [
    | inl n ↦ absurd (ground (arith))
    | inr (content, q) ↦ (content, q, ground (arith, same_refl (state_path state_dir)))
  ]

  -- If JSON prints UTF-8 and reads what it has printed, and a file keeps what was written to it while it
  -- is only looked at, a state that was saved is the one that is loaded next.
  pub load-save :
      (s : State) (state_dir : FilePath) (h : Log)
      → ((content : Text) → json.to_string_pretty s ≡ some content → is_utf8 content ≡ true)
      → ((content : Text) → json.to_string_pretty s ≡ some content → json.from_str content ≡ some s)
      → (save env json s state_dir h).0 ≡ ok tt
      → (load env json state_dir (save env json s state_dir h).1).0 ≡ ok s
  load-save s state_dir h prints reads e =
      let (content, q, w) = save-writes s state_dir h e in
      load-written state_dir content s (save env json s state_dir h).1 w (prints content q)
        (reads content q)
