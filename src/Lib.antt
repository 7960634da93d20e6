-- ===== src/Lib.antt =====
-- The API of SLC Central Admin, apps/api/src: its outbound integration layer, the sign-in and the
-- management of its administrators, and the tables and app stores that they administer.
--
-- Integration (Integration.antt) is apps/api/src/integration. Errors models errors.ts, Breaker,
-- Retry and Timeout model policies.ts (CircuitBreaker, withRetry, withTimeout), Ssrf models ssrf.ts
-- (Ipv4: isBlockedIpv4; Ipv6: isBlockedIpv6, expandIpv6, isBlockedIp; Hosts: isBlockedHost,
-- assertResolvedIpsAllowed, assertAllowedOutboundUrl) and Http models http/safeHttpClient.ts, which
-- calls the functions of Ssrf at each hop of a request. Types holds the vocabulary of integrations
-- and the contract of adapters (adapter/types.ts), Adapters the registry, the mock and the noop
-- adapter, Credentials credentials/resolver.ts and runtimeEnv.ts. Service is integration.service.ts:
-- the tables and configureIntegration, with Service/Connect for testConnection, which runs an adapter
-- behind Timeout, Retry and Breaker. Stock is adapter/stock-management: its authentication, and in
-- Stock/Operations the adapter.
-- Auth (Auth.antt) is apps/api/src/modules/auth with apps/api/src/lib, apps/api/src/middleware and
-- apps/api/src/modules/admin-users. Db holds the rows of prisma/schema.prisma that it uses, and the
-- calls of the database client on them; Env what is configured or comes from packages; Sessions
-- models session.service.ts, Permissions permissions.ts, Totp lib/totp.ts, Login the sign-in of
-- auth.service.ts, which calls all of them, Account its logout and changePassword with
-- lib/password.ts, SecretBox lib/secretBox.ts, Claims oidc/claims.ts, Sso oidc/oidc.service.ts, which
-- reads the claims of a verified token, finds or makes the account, brings its roles in step and
-- makes a session, and ends sessions at the provider's logout, Access the middleware csrf.ts,
-- requireAuth.ts and requirePermission.ts, and Admins adminUsers.service.ts.
-- Registry (Registry.antt) is apps/api/src/modules/applications and apps/api/src/modules/audit:
-- Pages cuts lists into pages, Applications models applications.service.ts, AuditLog
-- auditLog.service.ts.
-- Apps (Apps.antt) is apps/api/src/modules/apps: Firestore holds the values of documents and the
-- Firebase Admin SDK as an interface, Pasunestam models pasunestam/pasunestam.store.ts on it.
-- Shared holds constants of packages/shared/src/index.ts, AppErrors the errors of the handlers, Rows
-- the calls of the database client on the rows of a table, and Prelude what the parts have in
-- common: lists, texts as lists of UTF-16 code units, and calls that change a state and return or
-- throw.
--
-- Loops: withRetry has fuel for `retries + 1` attempts, after which the source throws too; request
-- makes its `maxRedirects + 1` rounds as the `for` loop of the source does. The inner loop of
-- base32Encode has one unit of fuel for each bit. Other loops run over their lists.
-- Parameters: argon2, SHA-256, AES-GCM, HMAC-SHA1, random tokens and identifiers; net.isIP, the URL
-- parser, DNS, the transport, the timer and the abort signal; the clock, the sleeper and Math.random;
-- the variables of the process; the order and the search of the database; Firebase; trim, slice,
-- toLowerCase and localeCompare on whole texts; decodeURIComponent. An adapter and the task of a
-- timeout are functions that end: a promise that never settles is not modelled. Time is in whole
-- milliseconds and the lifetime of a session in whole hours. The bit buffers of Base32 are 32 bits
-- wide, written as `% 2 ^ 32`.
-- Not modelled: the texts of errors, log lines beyond type, account and reason, races between
-- requests within one handler, the socket code below the transport, the OpenID client, the Express
-- endpoints, values of other kinds in the JSON column of roles by app, the configuration schema, the
-- modules of the API beyond these (identity, the Firebase bridge, the stores of JeevaMitra and
-- NearSIP), the web client and the deployment files.

pub mod AppErrors
pub mod Apps
pub mod Auth
pub mod Examples
pub mod Integration
pub mod Prelude
pub mod Registry
pub mod Rows
pub mod Shared
