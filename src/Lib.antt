-- ===== src/Lib.antt =====
-- Verification of zann, a self-hosted password manager (crates/ of the repository).
--
-- The program. Clients keep encrypted items in vaults and synchronise them with a server
-- (crates/zann-server). Every request carries an identity; policies, or else the role of the identity
-- in the vault, decide what it may do (domains/access_control). A client pushes a list of changes
-- (domains/sync), which the server applies in one transaction: each change writes the table of items,
-- the history of the item and the change log that other clients pull. In shared vaults the server
-- holds the keys (crates/zann-crypto) and rotates passwords in two phases, with a candidate that is
-- started, then committed or aborted (domains/vaults/http/v1/shared). The push and the rotation share
-- the access control, the rows of crates/zann-core and the history; the rotation uses the encryption.
--
-- The files.
--   Base        names shared by all files: text as lists of code points with the `str` operations of
--               Rust, UTF-8, lists measured by native numbers, results with `?` as a bind.
--   External    functions of crates outside the repository: texts of UUIDs and times (uuid, chrono),
--               glob patterns (glob), base64, JSON of cursors. Any functions will do for the theorems.
--   Errors      ServiceError (crates/zann-server/src/domains/errors.rs).
--   Core        enumerations of crates/zann-core/src/models/enums.rs and services.rs with as_i32,
--               try_from and from_str, and the rows of models/structs.rs. Core/Conversions relates
--               each enumeration to its numbers, by the laws of Core/EnumCodec.
--   Access      domains/access_control: Policy (PolicySet::evaluate; Policy/Order its specification),
--               Role (role_permits), Pattern (matches_pattern), Scope (parse_scope,
--               scopes_allow_vault), Vault (vault_role_allows, service_account_allows, and `access`,
--               the match on policies and role that stands in every handler).
--   Sync        domains/sync: Store (the tables, and each SQL statement as a function of a
--               connection), Action (requests, answers, and the monad of an `async fn` that holds the
--               connection), Paths (normalize_path_and_name), Steps (find_path_conflict,
--               actor_snapshot, history), Branches (the arms of `match (operation, existing)`), Apply
--               (apply_change), Push (prepare_sync, cursors, sync_push), Pull (sync_pull), Shared
--               (sync_shared_push; Shared/Pull sync_shared_pull). Proofs: Pull/Pages, Pull/Rows and
--               Pull/Complete (page after page), Shared/Sealed (sealed and read back), and for the push
--               Triple (partial correctness), Total (success), Frame (what one change keeps, once for all
--               properties), Sequence, HistoryBound, Pruning, Recorded, Reported, Stale, Delete, Kept
--               (from one change to a push), Logged, Transaction, Authorised.
--   Crypto      crates/zann-crypto: Blob (EncryptedBlob::to_bytes and from_bytes), Envelope
--               (encrypt_blob, decrypt_blob), Vault (vault_crypto.rs, secrets.rs). Proofs: Parsing,
--               Pieces, Canonical, RoundTrip, Binding.
--   Rotation    domains/vaults/http/v1/shared: Types, Password (generate_password), Store (the SQL
--               statements, and prune_rotation_candidates of infra/history.rs), Authorise (what all
--               handlers do first), Start, Read (rotate_status, rotate_candidate, rotate_recover),
--               Abort, Commit. Proofs: Steps (the statements as a step relation), Machine (the state
--               machine), Readers, Writers and Moves (what requests do to it), Inversion, Outcome, Written,
--               Placed, Committed, Expired, Strong (the passwords made).
--   Auth        domains/auth: Store (the tables and their statements), Display (infra/user_display.rs),
--               Session (create_session_for_user, refresh, logout), Identify (core/identity.rs, without
--               OIDC), PersonalVault (ensure_personal_vault), Login (login_internal), Account
--               (login_service_account). Proofs: Keyed (sessions told apart), Renewal, Authentic,
--               LoggedIn, LockedOut.
--   Vaults      domains/vaults/service.rs: Service (create_vault, find_vault), Existing (get_vault as
--               fetch_vault, update_vault_key, delete_vault), over the tables of Auth. Proofs: Creation,
--               Absent, Deletion.
--   Items       domains/items/service.rs: Scopes (paths, prefixes and scopes of service accounts), Store
--               (the statements, each on its own), Read (list_items, get_item, versions), Plan and
--               Changes (what a request computes before it writes: `edit` is the middle of
--               update_item), Write (create_item, update_item, delete_item, restore_item_version).
--               Proofs: Edited, Written, Updated, Deleted, Covered, Listed, Newest, History.
--   Secrets     domains/secrets/policies.rs: Policies (PasswordPolicy::validate, generate_secret).
--               Proofs: Generated.
-- Tests and Fixtures hold runs of the definitions on small states and the theorems at them.
--
-- State and failures. A table is the list of its rows; an id is its 128-bit number and a time a
-- number of milliseconds. A connection in a transaction is its tables, the next number of the
-- sequence behind changes.seq, which a rollback does not set back, and a budget: the number of
-- statements that still succeed. The theorems hold for every budget, so for a failure at any
-- statement; after one failure PostgreSQL refuses the rest of a transaction. Failures outside of
-- transactions are flags of the request. The clock, fresh UUIDs and random draws are arguments.
-- The statements of rotations outside of transactions may interleave between requests: the step
-- relation has every order of them. A push runs in one
-- transaction at the isolation level of the configuration; one transaction at a time is modelled.
--
-- Constraints. The unique index of item paths, the unique (item_id, version) of the history, the primary
-- keys of items and vaults and the unique slugs of vaults are in the statements. Foreign keys (of items,
-- item_history and changes on users, devices, vaults and items) and the primary key of item_history are
-- not: a statement that they refuse is one that the budget or a flag lets fail. A theorem that a push
-- succeeds therefore supposes that the rows it refers to exist.
--
-- A login runs outside of transactions except for the personal vault, whose transaction either commits
-- or leaves the tables alone; after its first failed statement PostgreSQL refuses the queries that look
-- for the vault again. The advisory lock and the isolation level have no effect on one request at a
-- time. The items service opens no transaction: each statement stands or fails on its own.
--
-- Bounds. i64 versions are natural numbers; where the push and the restore use saturating_add the bound
-- 2^63 - 1 stands in next_version. rotate_commit, update_item and delete_item add 1 without a check;
-- those sums are not bounded here. The two durations of the rotation's configuration and the times to
-- live of tokens are taken as not negative. No function needs fuel except the decimal text of a number,
-- whose 20 digits are enough for 64 bits. All loops are recursions on their lists.
--
-- Parameters. The cipher XChaCha20Poly1305 is a pair of functions; IsAead says what its crate
-- documents (a message comes back, the tag has 16 bytes), IsDrawn the sizes of keys and nonces, and
-- IsPayloadJson that serde_json reads back a payload up to the order of its hash map. Each is shown to
-- hold of a concrete function in the fixtures. blake3 is a function on bytes. The hashes of tokens and
-- passwords (sha2, argon2, with the peppers of the server) are functions on texts.
--
-- Not modelled: files of items, the service of secrets, listing of shared items and of vaults,
-- registration, and the administration of users, groups, devices and members, which are next; OIDC, which rests on an
-- external service; HTTP routing, configuration, metrics, logging and the clients (crates/zann-cli,
-- zann-client, zann-ffi, zann-keystore, apps), which are input and output around the services.
pub mod Base
pub mod External
pub mod Errors
pub mod Core
pub mod Access
pub mod Sync
pub mod Crypto
pub mod Rotation
pub mod Auth
pub mod Vaults
pub mod Items
pub mod Secrets
