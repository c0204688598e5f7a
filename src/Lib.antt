-- ===== src/Lib.antt =====
-- rustyknife: parsers for mail headers and SMTP commands, and what they guarantee.
--
-- The program is a set of nom parsers over bytes. A parser here is a function from the bytes left
-- to an `IResult` (Nom/Result.antt): `ok rest value`, or `err` with the variant of nom's `Err`.
-- The parts, each with the file that models it:
--   * Prelude.antt and its children: bytes as natural numbers, lists, UTF-8, ASCII case. Slices,
--     `&str` and `String` are lists of bytes, `char` is its scalar value.
--   * Nom.antt: the interface `Nom` of the combinators of the crate nom that the parsers call.
--     Each operation has a law that states what the crate documents of it: a loop over a parser
--     is given by its next round (`round`), and a round that makes no progress is an
--     error. Nom/Reference.antt is a value of the interface that runs the examples; Nom/Rules are
--     the rules from which the parsers' theorems are put together: a parser is `Sound` for a
--     grammar, a relation of the bytes read and the value returned.
--     Streaming.antt and StreamingLoops.antt say which results are kept with more input behind
--     (`Settled`), Decisions.antt and DecisionLoops.antt where a parser does not ask for more
--     (`Answers`, `Finds`).
--   * External.antt: what comes from other crates (idna, encoding, base64) and IPv6 addresses.
--   * Util.antt: src/util.rs, the crate's own combinators (fold_prefix0, recognize_many0,
--     recognize_many1, take1_filter, ascii_to_string).
--   * Rfc5234.antt: src/rfc5234.rs, white space, line ends and printable bytes.
--   * Types.antt: src/types.rs, the address types and their Display forms.
--   * Rfc5321: src/rfc5321.rs. Policy.antt is the trait `UTF8Policy` with its two markers `Legacy`
--     and `Intl` as values of a record; Params.antt the ESMTP parameters; Mailboxes.antt the domains,
--     literals, local parts, validate_address and smtp_try_unquote; Commands.antt every command,
--     Commands/IntoMailbox.antt `ForwardPath::into_mailbox`, on the conversions from text.
--   * Rfc3461: src/rfc3461.rs. Xtext.antt the xtext encoding, MailParams.antt dsn_mail_params with
--     its loop as a fold of `step`, Notify.antt dsn_notify, Orcpt.antt orcpt_address.
--   * Xforward.antt: src/xforward.rs.
--   * Headersection.antt: src/headersection.rs, on the streaming parsers of nom: what is not yet
--     decided is the result `incomplete`.
--   * Rfc2047.antt: src/rfc2047.rs, encoded words.
--   * Rfc5322: src/rfc5322.rs. Policy.antt the trait `UTF8Policy` of that module, Comments.antt
--     folding white space and comments, Words.antt atoms, quoted strings and phrases,
--     Addresses.antt mailboxes, groups and unstructured text.
--   * Rfc2231: src/rfc2231.rs. Syntax.antt the parsers, Decode.antt the joining of segments,
--     Headers.antt Content-Type, Content-Disposition and Content-Transfer-Encoding.
--   * Conversions.antt: the conversions from text that the macros of src/util.rs generate in
--     src/types.rs and src/rfc5321.rs, and the `From` instances there.
--   * Pymod: src/pymod.rs. Objects.antt what the bindings build, through the interface `Python`;
--     EntryPoints.antt the functions of the Python module. The message of an `Incomplete` does not
--     say how many bytes nom asks for.
--
-- What is proved about a file's definitions stands in the modules below it, and the runs at inputs
-- in Tests.antt and its children. Modules named Texts hold the grammars of theorems that read a
-- text back, as relations of bytes and values: Xforward/Texts.antt, Rfc2231/Syntax/Texts.antt,
-- Rfc2231/Headers/Texts.antt and Rfc5322/Addresses/Texts.antt. The round trips of mailboxes are
-- shared by the two behaviours: the record `Texts` (Rfc5321/Mailboxes/Texts.antt) says what atoms,
-- labels and quoted contents a policy reads, LegacyTexts.antt and IntlTexts.antt fill it, and the
-- paths and commands take it.
--
-- The SMTP and DSN modules call each other as the source does: dsn_mail_params takes the parameters
-- that esmtp_params returns, the commands read paths and parameters, headersection has streaming
-- parsers of its own, rfc2231 uses the white space and quoted strings of rfc5322.
--
-- Fuel: only nested comments (Rfc5322/Comments.antt) recurse on fuel, the length of the input and one
-- more (Rfc5322/Comments/Fuel.antt): each level reads its opening parenthesis. The loops of nom are
-- those of the interface. Integers: bdat_chunk_size keeps the overflow check of `u64`; a segment index
-- has at most eight digits, which fit a `u32`.
--
-- Not modelled: src/bin/fuzz_mailbox.rs, the examples and the tests (drivers), the serde attributes
-- of src/types.rs, the `Debug` forms that src/util.rs generates. Hash maps are lists of keys and values.
pub mod Prelude
pub mod Nom
pub mod External
pub mod Util
pub mod Rfc5234
pub mod Types
pub mod Rfc2047
pub mod Rfc2231
pub mod Rfc5322
pub mod Rfc5321
pub mod Rfc3461
pub mod Xforward
pub mod Headersection
pub mod Conversions
pub mod Pymod
mod Tests
