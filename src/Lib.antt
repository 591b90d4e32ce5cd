-- ===== src/Lib.antt =====
-- Verification of pa-sso-proxy, the single sign-on proxy of an Italian public body: SATOSA
-- (satosa/) speaks SPID, CIE and OpenID Connect, and config-api (config-api/) is the
-- administrator's web interface, which holds the proxy's configuration in a database, writes the
-- configuration of SATOSA from it and keeps the history of what SATOSA has published.
--
-- Parts and files:
--
-- RateLimiter models config-api/app/rate_limiter.py over the table login_attempts: a list of
-- rows in the order of their ids, with is_ip_banned, record_failed_attempt and clear_attempts.
-- The limits MAX_ATTEMPTS, BAN_MINUTES and WINDOW_MINUTES are a record, default_limits their
-- values.
--
-- Totp models config-api/app/admin_2fa.py over the one row of admin_totp: verify_code,
-- get_or_create_pending, pending_is_valid and reset_totp. pyotp and Fernet are a parameter, the
-- record Crypto: a secret that pyotp can read has any function from counters to codes, another
-- one raises, and where a theorem needs it, Decrypts says that Fernet decrypts what it has
-- encrypted. What the source takes from the random generators is an argument.
--
-- Login models config-api/app/main.py (login_page, login_post, logout and
-- admin_session_expiry_middleware), config-api/app/auth.py and
-- config-api/app/routes/login_2fa.py. A handler maps the database and the cookie of one request
-- to those after it and a response; handle dispatches a Call, and Cookie relates a cookie to the
-- calls that it has gone through and the database at each of them, which is arbitrary, since
-- other sessions change it meanwhile. Login calls RateLimiter before and after each check of a
-- password or a code, and Totp for the codes.
--
-- Metadata models the history of the published SPID metadata: the tables spid_metadata_version,
-- spid_cert and ente_settings (config-api/app/models), the override file that SATOSA serves in
-- place of its own document, log_metadata_snapshot of config-api/app/routes/internal.py, and, in
-- Metadata/Handlers, the routes of config-api/app/routes/metadata.py (metadata_expose,
-- metadata_validate, metadata_upload, metadata_download, metadata_delete, metadata_regenerate
-- and the redirect of the page that was removed) with _metadata_endpoint of
-- satosa/plugins/spidsaml2.py. Rows, Exposure, Takeover and Snapshots hold the lemmas on the
-- table, Changes, Restoring and Defects the properties of single operations.
--
-- Certs models config-api/app/routes/certs.py (certs_history, certs_activate, certs_delete,
-- certs_generate and the two downloads), the check of config-api/app/spid_cert.py and the files
-- of config-api/app/spid_cert_writer.py, over the same store. Making a key pair is a parameter.
-- History puts both sets of routes together: handle dispatches a Call, History relates a store
-- to the calls and snapshots that led to it, Issued relates it to the two files of the
-- certificate. The id and the time of a new row are arguments that the database chooses; the ids
-- grow and the clock does not go back. The calls under `try: ... except: pass` are a list of
-- effects, of which the ones up to the first failure are made.
--
-- CieSession models satosa/plugins/redis_storage.py: add_session, update_session,
-- consume_session and get_sessions. Redis and the pydantic model are the records Redis and
-- Model, with the laws in RedisLaws and ModelLaws; CieSession/Tests has an instance of both.
--
-- CieCallback models satosa/plugins/cieoidc-endpoints/authorization_callback_endpoint.py over
-- the store of CieSession: Services has what the endpoint calls, as a record of functions, Pages
-- a call's context and reply with _handle_idp_error and _handle_lost_state, Exchange the steps
-- from the session to the user, Translation the names of the attributes, and Endpoint puts them
-- together. The outcome of a call lists the requests that it made to the provider's token
-- endpoint. A query or a request is what parse_qs reads of it. CieAuthorization models
-- authorization_endpoint.py beside it: Request has the dict authz_data as a list of items, Url
-- the redirect, Endpoint the call, with the cached trust chains as its state. Completes and
-- Login relate it to CieCallback, which reads the session that it stores.
--
-- PipFix models scripts/security/pip_fix.py: Versions has version_key and the order of its
-- tuples, Sorting Python's sorted, Names normalize, parse_lock and the regular expression of a
-- dependency's line, Edit edit_infile, Severity severity, Choice choose_version, Plan build_plan
-- and Apply cmd_apply; Reported and Collected relate the plan's entries to the findings. A text
-- is the list of its code points and a file the list of its lines. more_numbers is on fuel, the
-- length of the text that is left, of which it takes away at least one character at each step.
--
-- IdentityProviders models the table of the SPID identity providers: Seed seed_spid_idps of
-- config-api/app/spid_seeder.py, Switches the switches of config-api/app/routes/idps.py,
-- eidas.py and legal_entity.py, Watcher the downloads of config-api/app/metadata_watcher.py,
-- with what a URL answers as a parameter. Enabled and Kept hold the lemmas on which rows are
-- enabled, and the data type of Exclusive relates a table to the operations that led to it. A
-- query that asks for one row finds the first, where aliases and ids are unique in the database.
-- AccessStats models run_retention of the same file over the tables access_log and
-- access_stats_monthly, with PostgreSQL's rules for NULL in GROUP BY and in a unique constraint;
-- the year and the month of a time are a parameter.
--
-- Languages models satosa/plugins/i18n.py: Languages has normalize and parse_accept_language,
-- Context resolve_lang and t; Accept, First, Resolve and Translated hold what is shown of them. A
-- weight is the bit pattern of a positive floating point number, whose order is that of the
-- numbers. The header's parser of cookies, parse_qs, float, str.format and the files are
-- parameters.
--
-- Version models config-api/app/version.py, with the file system as a function from a path to
-- what reading it gives; lower case is that of ASCII, which is what the test for hexadecimal
-- digits sees.
--
-- Prelude passes the library's names on and declares the Boolean tests, the lists measured by
-- native numbers and the lists of rows with growing ids; Result is the outcome of a function
-- that may raise; Unicode holds what str.isdigit and str.isspace say of a character, with strip
-- and split.
--
-- Times are microseconds since the epoch in native numbers, or seconds in CieSession; a
-- difference that the source would take below zero stops at 0, and each file says why that
-- compares the same. Except for more_numbers of PipFix, no function is on fuel: every loop is
-- over a list or a fixed number of TOTP counters.
--
-- Not modelled: what only renders a page or calls a network service, the generator of SATOSA's
-- configuration, the SAML and OIDC endpoints of satosa/ but for the ones above, backups, the
-- clients, the synchronisation with the SPID registry, the shell scripts and the tests. A
-- request is one step: two requests that interleave between their database or Redis commands are
-- not described, nor is a database or a file system that fails.
pub mod Prelude
pub mod Result
pub mod Unicode
pub mod RateLimiter
pub mod Totp
pub mod Login
pub mod Metadata
pub mod Certs
pub mod History
pub mod CieSession
pub mod CieCallback
pub mod CieAuthorization
pub mod PipFix
pub mod AccessStats
pub mod IdentityProviders
pub mod Languages
pub mod Version
