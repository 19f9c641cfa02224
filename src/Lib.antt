-- ===== src/Lib.antt =====
-- certforge, an ACME certificate manager with DANE and systemd integration (src/*.rs).
--
-- A run of `renew` reads the configuration (Config), checks it (Config/Validate), loads the state of
-- the run before (State) and puts file permissions right (Permissions). For each certificate it then
-- looks at the days that are left (Certs), chooses a key (Renew), which may start or end a rotation
-- with TLSA records that are published before the certificate exists (Dane, Tlsa, Dns), gets a chain
-- from the ACME server (Acme), stores it and the key (Keys, Credentials), publishes the TLSA records
-- and runs the hooks (Hooks).
--
-- Files and code:
--   Base         lists, texts, maps, paths and signed integers that the others share
--   Error        src/error.rs: the error type; `Result` has a panic beside ok and err
--   Config       src/config.rs: the data, `solver_for_domain`, and the look-ups of clients and solvers;
--                Config/Zones `all_zones` and `find_zone`, Config/Modes `parse_mode`,
--                Config/Validate `Config::validate`, with its specification and proof below it,
--                Config/Unused the definitions that it warns about, Config/Load `Config::load`
--   Crates       the pure functions of other crates, as a record of parameters
--   World        the requests that the program makes of the world, and its answers (`Env`)
--   Exec         a computation that returns a result beside the log of its requests; Exec/Logs has the
--                rules to show which requests a computation makes, Exec/Panics and Exec/Gives those to
--                show that it never panics, what it gives, and that it ends well
--   Certs        src/certs.rs: `load` (Certs/Load), `from_pem`, `extract_san`, `days_until_expiry`, `expires_within_days`
--   Tlsa         src/dns/tlsa.rs: `from_certificate`, `from_spki`, `to_rdata_string`
--   Keys         src/keys.rs: Keys/Pair `from_pem_or_der`, `to_pem`, `spki_der`; Keys/Der `wrap_ec_spki`
--                and, in Keys/Der/Reader, a reader of its output; `generate` and `load` (`load_pair`)
--   Credentials  src/credentials.rs: `load_secret`, `encrypt_credential`
--   State        src/state.rs: `ttl_expired`, `load`, `save`
--   Dns          src/dns/update.rs (Dns/Update; Dns/Rdata for `tlsa_to_rdata`) and src/dns/tsig.rs
--   Dane         src/dane.rs: Dane/Records for the records and zones, Dane for the publication
--   Hooks        src/hooks.rs: `run_hooks` and what it calls
--   Permissions  src/permissions.rs: `apply` and `ensure_permissions` on Unix
--   Acme         src/acme.rs: `create_order`, `collect_challenges`, `set_challenges_ready`,
--                `finalize_order` and `download_certificate`; the account in Acme/Account
--   Solver       src/solver: Solver/Any the trait, as the sum of the solvers; Solver/Dns01; Solver/Http01
--                the tokens of the standalone server, its answers, and the files of the webroot solver;
--                Solver/TlsAlpn01 the certificates and the resolver; Solver/Server the start of a server
--   Renew        src/renew.rs: `determine_key`, `pre_publish_dane` and `save_key`; Renew/Build
--                `build_solvers` and the solver of each domain; `renew_certificate` in Renew/Certificate
--                (whether and with which key), Renew/Order (challenges around the order) and Renew/Issue
--                (order, storage, records, hooks); Renew/Run `run`
--   Commands     src/main.rs and the commands of src/cli.rs: Commands/Status `print_status`, Commands/Dane
--                `dane_publish` and `dane_check`, Commands `main` with the other commands
--   Safety       which computations never panic or always end well, part by part
--   Tests        tests, and the theorems at concrete inputs
--
-- How code is modelled. A text or a path is the list of its bytes. Code with effects is a function of
-- the log of the requests made so far, the latest first. What the world answers is a function of that
-- log and unknown to the code, so that any request may fail and files may change between two requests.
-- A function that changes the run's state takes it and gives it back, on an error too. Loops over lists
-- and over the remaining retries are structural recursion, so that no fuel is needed; the 20 retries
-- are the source's. Numbers are naturals or, for times in nanoseconds, integers; where the source
-- reads a `u32`, its bound is checked as there.
--
-- What is not modelled. TOML, JSON, PEM, X.509, digests, keys, DNS names, D-Bus and the protocols of
-- the servers are other crates' and stand as parameters. An error keeps its kind and its format
-- string, not the text of a foreign error in it. Log messages, the logger and the parsing of the command
-- line (clap's, src/cli.rs) are left out, and so are the ACME account's id and the default values that
-- serde puts into the configuration (src/config.rs).
--
-- The challenge servers run as tasks beside the run. Those of src/solver/http01.rs only call the total
-- `handle_request`, and leave the run alone. Those of src/solver/tls_alpn01.rs call the resolver for
-- each handshake, whose `blocking_read` may panic, and with `panic = "abort"` (Cargo.toml) that ends the
-- run. `serve` hears their handshakes (`Env.handshakes`) when a challenge is presented, between the
-- parts of the order and at each cleanup; what `blocking_read` does is a parameter (`Crates`). That a
-- server may answer after its certificate's cleanup is not modelled, so that statements about panics
-- assume of every handshake that it names no server, or that no such solver is configured.
pub mod Base
pub mod Error
pub mod Config
pub mod Keys
pub mod Crates
pub mod Certs
pub mod Tlsa
pub mod Dns
pub mod Exec
pub mod World
pub mod Hooks
pub mod Permissions
pub mod Credentials
pub mod State
pub mod Dane
pub mod Acme
pub mod Renew
pub mod Solver
pub mod Safety
pub mod Commands
pub mod Tests
