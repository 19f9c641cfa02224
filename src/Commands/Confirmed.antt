-- ===== src/Commands/Confirmed.antt =====
-- What `dane_check` finds (src/main.rs).
use certforge.Base.{
  Text, In, is_empty, not, Bool, true, false, ◌&&◌, All, All-imp, ◌⊎◌, Option, none, some, inl, inr,
  List, [], ◌∷◌, ◌≡◌, refl, sym, ap, subst, ◌∙◌,
}
use certforge.Error.{Error, eq_of_ok, Result, ok, err, panic}
use certforge.Config.{DaneConfig, CertificateConfig, Config, ok_or}
use certforge.Crates.{Crates}
use certforge.Certs.{CertInfo}
use certforge.Certs.Load.{load_cert}
use certforge.Tlsa.{TlsaRecord}
use certforge.Dane.Records.{compute_tlsa_records, first_record}
use certforge.Dns.Rdata.{Numbers}
use certforge.Dns.Update.{query_tlsa_records}
use certforge.Exec.{when}
use certforge.Exec.Gives.{
  Gives, Gives-pure, Gives-any, Gives-panic, Gives-bind, Gives-capture_from, Gives-lift, Gives-if,
  Gives-imp,
}
use certforge.World.{Log, Env, exit, observe}
use certforge.Exec.Logs.{bind-ok, bind-rest}
use certforge.Renew.Run.{is_chosen}
use certforge.Commands.Matching.{and-true, contains-In}
use certforge.Commands.Dane.{
  contains, compare_records, on_answer, check_name, check_names, check_block, check_blocks,
  compare_certificate, compare_certificates, dane_check,
}

ok_or-some : {A : Type 0} (o : Option A) (e : Error) {a : A} → ok_or o e ≡ ok a → o ≡ some a
ok_or-some none e q = absurd cc
ok_or-some (some b) e q = cc

module _ (crates : Crates) (env : Env) (numbers : Numbers) where
  -- a server's answer for the name has the record
  abbrev pub Confirmed : TlsaRecord → Text → Type 0
  Confirmed expected tlsa_name =
      (name : Text) × (crates.name_from_ascii tlsa_name ≡ some name)
      × (h : Log) × (published : List TlsaRecord) × ((query_tlsa_records env numbers name h).0
          ≡ ok published)
      × In expected published

  -- the record of the certificate is there for each name of the entry
  abbrev pub BlockConfirmed : CertInfo → DaneConfig → Type 0
  BlockConfirmed info dane =
      (records : List TlsaRecord) × (expected : TlsaRecord) × (compute_tlsa_records crates info dane
        ≡ ok records)
      × (first_record records ≡ ok expected)
      × All (Confirmed expected) dane.names

  -- every entry is confirmed against the certificate that the file holds throughout
  abbrev pub IsConfirmed : CertificateConfig → Type 0
  IsConfirmed cert =
      (info : CertInfo)
      → ((h : Log) → (load_cert crates env cert.cert_path h).0 ≡ ok info)
      → All (BlockConfirmed info) cert.dane

  compare_records-Gives :
      (expected : TlsaRecord) (tlsa_name : Text) (published : List TlsaRecord)
      → Gives
          (λ b. b ≡ true → In expected published)
          (compare_records crates env expected tlsa_name published)
  unfolding compare_records
  compare_records-Gives expected tlsa_name [] =
      Gives-bind _ _ (Gives-any _)
        λ _ _. Gives-bind _ _ (Gives-any _) λ _ _. Gives-pure false (λ e. absurd cc)
  compare_records-Gives expected tlsa_name (first ∷ rest) =
      Gives-if (contains expected (first ∷ rest)) _ _
        (λ has.
          Gives-bind _ _ (Gives-any _)
            λ _ _. Gives-pure true (λ e. contains-In expected (first ∷ rest) has))
        λ _. Gives-bind _ _ (Gives-any _) λ _ _.
          Gives-bind _ _ (Gives-any _)
            λ _ _. Gives-bind _ _ (Gives-any _) λ _ _. Gives-pure false (λ e. absurd cc)

  on_answer-Gives :
      (expected : TlsaRecord) (tlsa_name : Text) (r : Result (List TlsaRecord))
      → Gives
          (λ b.
            b ≡ true → (published : List TlsaRecord) × (r ≡ ok published) × In expected published)
          (on_answer crates env expected tlsa_name r)
  unfolding on_answer
  on_answer-Gives expected tlsa_name (ok published) =
      Gives-imp _ (λ b k e. (published, refl, k e))
        (compare_records-Gives expected tlsa_name published)
  on_answer-Gives expected tlsa_name (err x) =
      Gives-bind _ _ (Gives-any _) λ _ _. Gives-pure false (λ e. absurd cc)
  on_answer-Gives expected tlsa_name panic = Gives-panic

  check_name-Gives :
      (expected : TlsaRecord) (tlsa_name : Text)
      → Gives
          (λ b. b ≡ true → Confirmed expected tlsa_name)
          (check_name crates env numbers expected tlsa_name)
  unfolding check_name
  check_name-Gives expected tlsa_name = Gives-bind _ _ (Gives-lift _) λ name found.
      Gives-bind _ _ (Gives-capture_from _) λ r (h, asked).
        Gives-imp _
          (λ b k e.
            let (published, q, m) = k e in (name, ok_or-some _ _ found, h, published, asked ∙ q, m))
          (on_answer-Gives expected tlsa_name r)

  check_names-Gives :
      (expected : TlsaRecord) (all_ok : Bool) (names : List Text)
      → Gives
          (λ b. b ≡ true → (all_ok ≡ true) × All (Confirmed expected) names)
          (check_names crates env numbers expected all_ok names)
  unfolding check_names
  check_names-Gives expected all_ok [] = Gives-pure all_ok (λ e. (e, tt))
  check_names-Gives expected all_ok (tlsa_name ∷ names) =
      Gives-bind _ _ (check_name-Gives expected tlsa_name) λ fine k.
        Gives-imp _
          (λ b rest e.
            let (both, others) = rest e in
            let (before, now) = and-true all_ok fine both in (before, (k now, others)))
          (check_names-Gives expected (all_ok && fine) names)

  module _ (c : Config) where
    -- what the block's check says of the certificate that was read
    abbrev BlockSays : Result CertInfo → DaneConfig → Type 0
    BlockSays loaded dane = (info : CertInfo) → loaded ≡ ok info → BlockConfirmed info dane

    check_block-Gives :
        (loaded : Result CertInfo) (dane : DaneConfig) (all_ok : Bool)
        → Gives
            (λ b. b ≡ true → (all_ok ≡ true) × BlockSays loaded dane)
            (check_block crates env numbers c loaded dane all_ok)
    unfolding check_block
    check_block-Gives (ok info) dane all_ok = Gives-bind _ _ (Gives-lift _) λ records q.
        Gives-bind _ _ (Gives-lift _) λ expected r. Gives-bind _ _ (Gives-any _) λ dns_config _.
          Gives-bind _ _ (Gives-any _) λ _ _. Gives-bind _ _ (Gives-any _) λ _ _.
            Gives-imp _
              (λ b k e. (
                (k e).0,
                λ i same.
                    subst (λ x. BlockConfirmed x dane) (eq_of_ok _ _ same)
                      (records, expected, q, r, (k e).1),
              ))
              (check_names-Gives expected all_ok dane.names)
    check_block-Gives (err x) dane all_ok =
        Gives-bind _ _ (Gives-any _) λ _ _. Gives-pure all_ok (λ e. (e, λ i same. absurd cc))
    check_block-Gives panic dane all_ok = Gives-panic

    check_blocks-Gives :
        (loaded : Result CertInfo) (all_ok : Bool) (entries : List DaneConfig)
        → Gives
            (λ b. b ≡ true → (all_ok ≡ true) × All (BlockSays loaded) entries)
            (check_blocks crates env numbers c loaded all_ok entries)
    unfolding check_blocks
    check_blocks-Gives loaded all_ok [] = Gives-pure all_ok (λ e. (e, tt))
    check_blocks-Gives loaded all_ok (dane ∷ entries) =
        Gives-bind _ _ (check_block-Gives loaded dane all_ok) λ so_far k.
          Gives-imp _
            (λ b rest e.
              let (then_ok, others) = rest e in
              let (before, now) = k then_ok in (before, (now, others)))
            (check_blocks-Gives loaded so_far entries)

    compare_certificate-Gives :
        (cert : CertificateConfig) (all_ok : Bool)
        → Gives
            (λ b. b ≡ true → (all_ok ≡ true) × (is_empty cert.dane ≡ false → IsConfirmed cert))
            (compare_certificate crates env numbers c cert all_ok)
    unfolding compare_certificate
    compare_certificate-Gives cert all_ok =
        Gives-if (is_empty cert.dane) _ _
          (λ empty. Gives-pure all_ok (λ e. (e, λ filled. absurd cc)))
          λ _. Gives-bind _ _ (Gives-any _) λ _ _.
            Gives-bind _ _ (Gives-capture_from _) λ loaded (h, read).
              Gives-bind _ _ (check_blocks-Gives loaded all_ok cert.dane) λ so_far k.
                Gives-bind _ _ (Gives-any _) λ _ _. Gives-pure so_far λ e. (
                  (k e).0,
                  λ _ info q.
                      All-imp (BlockSays loaded) (BlockConfirmed info) cert.dane
                        (λ dane says. says info (sym read ∙ q h)) (k e).1,
                )

    -- a certificate that is chosen and has DANE entries is confirmed
    abbrev pub Checked : Option Text → CertificateConfig → Type 0
    Checked filter cert =
        is_chosen filter cert.name ≡ true → is_empty cert.dane ≡ false → IsConfirmed cert

    compare_certificates-Gives :
        (filter : Option Text) (all_ok : Bool) (certs : List CertificateConfig)
        → Gives
            (λ b. b ≡ true → (all_ok ≡ true) × All (Checked filter) certs)
            (compare_certificates crates env numbers c filter all_ok certs)
    unfolding compare_certificates
    compare_certificates-Gives filter all_ok [] = Gives-pure all_ok (λ e. (e, tt))
    compare_certificates-Gives filter all_ok (cert ∷ certs) =
        Gives-bind _ _
          (Gives-if (is_chosen filter cert.name) _ _
            (λ _.
              Gives-imp _ (λ b k e. ((k e).0, λ _. (k e).1))
                (compare_certificate-Gives cert all_ok))
            (λ skipped.
              Gives-pure {P = λ b. b ≡ true → (all_ok ≡ true) × Checked filter cert} all_ok
                (λ e. (e, λ chosen. absurd cc))))
          λ so_far k.
            Gives-imp _
              (λ b rest e.
                let (then_ok, others) = rest e in
                let (before, now) = k then_ok in (before, (now, others)))
              (compare_certificates-Gives filter so_far certs)

    last_exit :
        (all_ok : Bool) (h : Log)
        → ((t : Log) × ((when (not all_ok) (observe (exit 1) (λ _. tt)) h).1 ≡ exit 1 ∷ t))
          ⊎ (all_ok ≡ true)
    unfolding observe
    last_exit true h = inr refl
    last_exit false h = inl (h, refl)

    -- If `dane_check` ends well, its last request is the exit with code 1, or each certificate that is
    -- chosen and has DANE entries is confirmed: if its file reads as the same certificate throughout,
    -- an answer of the server for each name of each entry has the record that is computed from it.
    pub dane_check-Checked :
        (filter : Option Text) (h : Log)
        → (dane_check crates env numbers c filter h).0 ≡ ok tt
        → ((t : Log) × ((dane_check crates env numbers c filter h).1 ≡ exit 1 ∷ t))
          ⊎ All (Checked filter) c.certificates
    unfolding dane_check
    dane_check-Checked filter h e =
        let (all_ok, a, _) =
          bind-ok (compare_certificates crates env numbers c filter true c.certificates) _ h e in
        let after =
          bind-rest (compare_certificates crates env numbers c filter true c.certificates) _ h a in
        let before = (compare_certificates crates env numbers c filter true c.certificates h).1 in
        elim (last_exit all_ok before) [
          | inl (t, q) ↦ inl (t, ap (λ r. r.1) after ∙ q)
          | inr fine ↦
              inr (((compare_certificates-Gives filter true c.certificates).at h all_ok a fine).1)
        ]
