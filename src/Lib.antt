-- ===== src/Lib.antt =====
-- Caddy Protector, a Caddy module that asks a browser for a Cap proof before it lets it through to
-- the upstream.
--
-- A request is served by ServeHTTP (handler.go): the verify path takes solved challenges, a bypass
-- key skips the protection, request rules (filters.go), country rules and IP lists (refresh.go) cut
-- the connection or let the request through, a signed cookie (verification.go) lets a browser
-- through that was verified, and every other request gets a challenge page (challenge.go). The page
-- carries a signed return state; the browser posts it with its Cap token to handleVerify
-- (verification_handler.go), which limits the attempts of each address, asks Cap and sets the
-- cookie.
--
-- The files:
-- Base: Booleans, lists, association lists, integers and results.
-- Text: Go's strings as lists of bytes; TrimSpace and the case functions, Cut, path.Clean and
-- Itoa.
-- Base64: base64.RawURLEncoding.
-- Netip: addresses and prefixes of net/netip.
-- Http: requests, cookies and responses as a handler sees them.
-- Protector: the types of caddyprotector.go, the configuration and the state of the module.
-- ReturnPath: safeReturnPathFrom and getOriginalPath of handler.go.
-- RateLimit: allowVerifyAttempt and its helpers of verification_handler.go.
-- Token: verification.go, with deriveMACKey and parseSameSiteMode of challenge.go.
-- IpList: the IP lists of refresh.go.
-- Filters: filters.go.
-- Country: the country codes and the lookup of refresh.go.
-- Challenge: challenge.go, the page and its policy.
-- Verify: handleVerify of verification_handler.go, with decodeVerifyRequest, isJSONContentType and
-- getClientIP; Verify.Siteverify is verifyCapToken.
-- Handler: ServeHTTP of handler.go.
-- Config: Validate and Provision of config.go, with the checks of the configuration of refresh.go.
-- Outbound: outbound.go; Outbound.Client is the client that it makes, with the redirects that it
-- follows, and Outbound.Download is fetchURLBytes of refresh.go.
-- Logging: what is written to the log, with the redaction of handler.go and shortValue of
-- challenge.go.
-- Caddyfile: caddyfile.go.
-- Lifecycle: the refresh loops, loadCountryDB and setCountryDB of refresh.go and Cleanup of
-- lifecycle.go, as steps of the module.
-- Tests: stand-ins for the libraries, and the theorems at concrete inputs.
--
-- State is passed explicitly: a handler takes the module's state and a response and gives both
-- back. Times are nanoseconds, durations of the configuration are integers of any size. A function
-- that holds a mutex is one step. A Go map is a list of pairs; RateLimit.Order compares the orders
-- of the table of attempts. The functions are total; three have fuel. The Max-Age has it for the 34
-- doublings that such a number of seconds needs. Itoa has it for 20 digits, which no int64 exceeds.
-- A client has it for four requests, since CheckRedirect refuses a redirect after the fourth.
--
-- Parameters are BLAKE3 (Crypto), encoding/json (Codec and the decoder in Parsers), the parsers of
-- net/netip, mime and net (AddressParser, Parsers), the case tables of Unicode (Unicode), the
-- escapes of net/url and the canonical form of a header name (Escapes), url.Parse and net.ParseIP
-- (UrlParser), the database reader (Opened, Reader), the template (Template), the resolver and the
-- servers (Web), the JSON of Cap (CapApi), files, random bytes and the clock. Their laws are fields
-- of their records: a MAC of 32 bytes for a key of 32 bytes, values that come back from JSON,
-- prefixes that are told apart by their text, and a text that is equal to itself whatever its case.
--
-- A cookie is data: its text is the library's. http.SetCookie drops a cookie whose name is no
-- token, and Validate accepts such a name. The Max-Age is computed with float64 numbers: Token says
-- when the sum of the seconds and of the rest is rounded up to a whole second, for the seconds of
-- an int64 of nanoseconds, which have 34 bits. The body of an error is its message without the line
-- break that http.Error adds.
--
-- Validate and Provision drop a module that they refuse. The Caddyfile block is a list of
-- directives with their arguments, as Caddy's tokenizer gives them; an int has 64 bits, and the
-- product of the minutes wraps around. A client that follows redirects asks CheckRedirect before
-- each, with the number of the requests that were made. A server may answer each request in another
-- way; a redirect that cannot be parsed, a timeout and a lost connection are an absent answer. No
-- proxy is configured. A handler takes Cap's answers as a function; Handler.Asked gives it
-- verifyCapToken.
--
-- Not modelled are timers and channels, the transport and the resolver, the fixed messages of the
-- log and their levels, the registration of the module and the template's text.
pub mod Base
pub mod Text
pub mod ReturnPath
pub mod Netip
pub mod RateLimit
pub mod Base64
pub mod Protector
pub mod Http
pub mod Token
pub mod IpList
pub mod Filters
pub mod Country
pub mod Challenge
pub mod Verify
pub mod Handler
pub mod Config
pub mod Outbound
pub mod Caddyfile
pub mod Lifecycle
pub mod Logging
pub mod Tests
