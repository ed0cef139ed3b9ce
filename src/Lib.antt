-- ===== src/Lib.antt =====
-- OrionLink: single sign-on in which a Broker relays between a relying party (RP) and an identity
-- provider (IdP) and learns neither the user's attributes nor the link between sessions.
--
-- The program. An RP registers with a Pointcheval-Sanders credential on its domain and another on
-- its domain and a secret key. In a login the Broker randomizes the domain credential (the acid of
-- the session), the user consents to it at the IdP, the RP proves knowledge of both credentials,
-- the RP and the IdP agree on a session key K_S, and the IdP issues tokens whose claims are
-- encrypted under K_S, with a pseudonym that the RP unblinds. The Broker passes the tokens on for a
-- code of its own. A refresh relays one message through the Broker under a double ratchet that
-- starts from K_S.
--
-- The files, by the code that they model:
--   Prelude/       numbers, byte slices (nil is `none`), results with errors and panics, maps
--   Ecc, Crypto    parameters: the pairing curve of circl, and Go's hashes and AES-GCM, each a
--                  record of functions with the laws that their documentation states
--   Wire/          internal/common/serialize.go
--   Protocol       internal/protocol, internal/common/types.go
--   Session/       lib/utils.go; newSession of RP/aaka.go; getSessionKey of IdP/aake.go
--   Cred/          PsSig: lib/PSSig.go; Nizk: lib/NIZK.go; Blind, Present: lib/anonyCred.go
--   Pok/           geneatePoK of RP/aaka.go; toProof and verifyPoK of IdP/aake.go
--   Auid/          GenerateAuid of IdP/aake.go; unblindAuid and handleUnblindAuid of RP/aaka.go;
--                  GetUnblindAuid of Broker/aaka.go
--   Token/         the claims and lifetimes of IdP/token.go; golang-jwt is a parameter
--   Ratchet/       Idp: IdP/refresh.go; Rp: RP/refresh.go; Relay: Broker/refresh.go
--   Idp/           handleToken and generateTokens of IdP/aake.go; Store, EmpKeys: IdP/storage.go and
--                  handleGetIdPEmpKey of IdP/handler.go; KeyFile: IdP/persist.go;
--                  Consent: the login form, consent and revocation of IdP/handler.go,
--                  IdP/ssso.go and IdP/revoke.go
--   Broker/        handlers of Broker/handler.go and Broker/aaka.go; Store: Broker/storage.go;
--                  Resign: resignTokensWithBrokerKey of Broker/token.go
--   Jwks/          the published keys and VerifyIDToken of Broker/token.go and RP/token.go
--   Rp/            handlers of RP/aaka.go and RP/handler.go; Store: RP/storage.go; KeyFile:
--                  RP/persist.go and NewRefreshTokenHelper of RP/refresh.go
--   Register/      IdP/register.go, RP/register.go, Broker/register.go, and the Broker's file of
--                  registrations in Broker/persist.go; Record: the RP's in RP/persist.go,
--                  AutoRegister of RP/bench_support.go and handleLogin of RP/handler.go
--   Files/         what the program uses of os, encoding/json and encoding/hex, as parameters
--   Login          the parts of a login together
--   Examples/      the theorems at concrete inputs
--
-- How code becomes a definition. A function that may fail returns a `Result`: a value, an error
-- named by the fixed part of its message, or a panic. A pointer or slice that may be nil is an
-- option. An operation on a store takes the state and returns the state it leaves with its result,
-- also when it fails. Random scalars, nonces, codes and the time are arguments, numbered in the
-- order of their use; `none` is a failed read. A curve operation that writes its receiver is a
-- function of its operands. Calls under a lock are whole steps; HTTP exchanges are functions from
-- the request to a result. Loops are recursion on lists or on the number of rounds; only the decimal
-- digits of a number run on fuel, which is the number itself: it has no more digits than its value.
-- The 32-bit sequence number of the relay wraps as `% 2 ^ 32`; times are seconds as natural numbers.
-- Slicing up to a fixed length reaches into a slice's capacity: what is there is a function of the
-- parameters. So is what fiber and the browser make of a cookie, and of the strings of a request that
-- a handler keeps behind its end.
--
-- Not modelled: pages and route tables, configuration, the start of the servers, the OPRF service,
-- benchmarks, and the browser client. Logging and HTTP status codes are left out of the handlers
-- that are modelled.
pub mod Prelude
pub mod Ecc
pub mod Crypto
pub mod Wire
pub mod Protocol
pub mod Session
pub mod Cred
pub mod Pok
pub mod Auid
pub mod Token
pub mod Ratchet
pub mod Idp
pub mod Broker
pub mod Files
pub mod Jwks
pub mod Register
pub mod Rp
pub mod Login
pub mod Examples
