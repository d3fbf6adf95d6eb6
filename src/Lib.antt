-- ===== src/Lib.antt =====
-- MailScript: the SMTP filtering proxy and its sender authentication.
--
-- The program is a proxy between a mail client and a server behind it. A session (cmd/mailscript/
-- proxy.go, submission.go) reads command lines, keeps the state of one transaction, runs a policy
-- script on each message, turns the actions that the script leaves into a disposition
-- (cmd/mailscript/delivery.go), and hands the message on (cmd/mailscript/upstream.go). The sender
-- of a message is judged by pkg/authverify: SPF for the envelope, DKIM for the signatures, ARC for the
-- seals of hosts on the way, DMARC for the author, DANE for the mail hosts, and verify.go for all.
--
-- The modules:
--   Base               names of the libraries, Boolean tests, lists, Result and integers
--   Text               the functions of strings, strconv and base64 that the code calls, with
--                      their laws
--   Delivery.Policy    policyDisposition, unsupportedDeliveryAction, smtpReplyText of delivery.go
--   Delivery.Envelope  validEnvelopeAddress, validateEnvelope, parseSMTPPath of delivery.go
--   Delivery.Wire      readWireLine and validateWireData of delivery.go; dotStuff and the reading
--                      loop of handleDATA of proxy.go
--   Delivery.Headers   stripHeader, prependHeader, applyModifiedHeaders, applyHeaderChanges of proxy.go
--   Session.State      SMTPProxy, ProxyStats, SMTPSession, upstreamError, resetTransaction of proxy.go
--   Session.Replies    message, clientReply of proxy.go, upstreamFailure of upstream.go
--   Session.Reading    readSMTPReply of proxy.go
--   Session.Auth       handleAUTH of submission.go
--   Session.Deliver    deliver, forwardToUpstream of upstream.go
--   Session.Data       handleDATA, processWithMailScript of proxy.go
--   Session.Loop       the other handlers and the loop of handleSMTPConnection of proxy.go
--   Net                addresses and prefixes of package net, as numbers of 128 bits
--   Spf                pkg/authverify/spf.go: Types (limits, counters), Macros (expandDomainSpec),
--                      Mechanisms (evaluateMechanism and what it calls), Check (check),
--                      Client (VerifySPF)
--   Dmarc              pkg/authverify/dmarc.go: Record, Alignment, Verdict
--   Dkim               pkg/authverify/dkim.go: Fields (names and white space), Tags, Canonical, Key
--                      (fetchDKIMKey), SignedInput (buildSignedHeaderInput), Outcome
--                      (DKIMSignatureResult), Signature (verifyOneMessageSignature), Result
--                      (VerifyDKIM)
--   Dane               pkg/authverify/dane.go: Discovery, Certificate, Description
--   Dns                pkg/dnsx/resolver.go: Cache (the cache, the lookups and the block lists),
--                      Reverse (reverseIPForDNSBL)
--   Arc                pkg/authverify/arc.go: Sets, Seal, Chain (VerifyARC)
--   Verify             pkg/authverify/verify.go, with its reports in Verify.Report
--   Transport          pkg/authverify/transport.go, with CheckTLSReporting and CheckMTASTS in
--                      Transport.Discovery
--   Rules              pkg/rules: Fields (SplitMessage, ParseHeaderBlock), Context (MessageContext, its
--                      index and accessors), Address (addresses and their lists), Mime (decodeMIME,
--                      walkMultipart) and Message (ParseMessage) of message.go; Reported (auth.go,
--                      with RegisteredDomain of domain.go)
--   Examples           concrete sessions, messages and domains
--
-- Strings are lists of bytes; letters and white space are those of ASCII. Where the code writes a text
-- rune by rune, Text.Runes says what becomes of bytes that are not UTF-8. A handler is a function on
-- the state of one session, and `serve` runs the handlers over the lines of a client. What comes from
-- outside while one line is handled is its `Input`: the lines read after it, what the script leaves,
-- what the server behind and the host answer, and whether the TLS handshake succeeds. The lines
-- written are kept in the state, and so are the counters of the proxy. An error is a value of
-- `Result` or `Option`; its message is data, not text, where no reply holds it.
--
-- The evaluation of SPF passes its counters from step to step. Records include one another, so
-- `check` recurses on fuel: each nested record costs one of the ten lookups, so that `max_depth`,
-- which is eleven, is enough. For the verifiers a resolver is a record of functions, so it answers a
-- question that is asked again in the same way; Dns.Cache.Refinement relates this view to the resolver
-- with its cache, whose clock is the list of its readings and whose servers are a parameter.
--
-- Hashes, signature schemes and the parsers of keys are Go's packages crypto. They are the record
-- `Crypto`, of which nothing is assumed: a theorem says for which bytes the code asked them. Times are
-- nanoseconds from 1970 on, and the seconds of a tag wrap as those of package time do. The checks of a
-- signature are one function each, called in the order of the code, and what a check finds is
-- written to the result that it passes on.
--
-- A message for the rules is a list of fields with an index of positions; an index out of range is a
-- panic, which is `none`. Go iterates over a map in no fixed order; a map here is a list in the order
-- of insertion. The walk over MIME parts recurses on fuel: `max_mime_depth` is 12, so that 13 levels are
-- enough. The parsers of packages net/mail, mime and multipart are parameters.
--
-- Not modelled: connecting to the server behind and what is sent to it line by line, the public suffix
-- list (the parameter `etld_plus_one`), the lookup of TLSA records (`lookup_tlsa`), the script engine, its built-ins and the
-- checks of headers and content (the other files of pkg/rules), the packets and locks
-- of the resolver (pkg/dnsx), the classifiers (pkg/ml), and the command line, which is input and
-- output. The connection limits and deadlines of the proxy, the time that a verification takes, and
-- the bytes that are not ASCII in letters and white space are left out. AuthResults keeps its result for
-- later calls; here it is computed at each call.
pub mod Base
pub mod Text
pub mod Delivery
pub mod Session
pub mod Net
pub mod Spf
pub mod Dmarc
pub mod Dkim
pub mod Dane
pub mod Dns
pub mod Arc
pub mod Verify
pub mod Rules
pub mod Transport
pub mod Examples
