-- ===== src/Examples/Rules.antt =====
-- Messages of pkg/rules with folded fields, lists of mailboxes, a multipart body, and authentication
-- results that are trusted, forged and failing.
use mailscript.Base.{
  length, any, All, ℕ, ◌+◌, ◌≡◌, refl, ◌⊎◌, true, false, ◌||◌, none, some, List, [], ◌∷◌, ◌++◌, map,
  arith,
}
use mailscript.Text
use mailscript.Text.{Bytes, codes}
use mailscript.Text.Runes.{IsUtf8, ascii-IsUtf8}
use mailscript.Rules.Fields.{Field, crlf, parse_header_block}
use mailscript.Rules.Fields.Block.{IsLine, parse_header_block-join}
use mailscript.Rules.Context.{Context, new_context, set_headers, add_header_line}
use mailscript.Rules.Context.Index.{values_of, first_value}
use mailscript.Rules.Context.Accessors.{
  AgreesWith, set_headers-accessors, add_header_line-set_headers,
}
use mailscript.Rules.Address.{MailParser, split_address_list, domain_of}
use mailscript.Rules.Address.Lists.{
  IsMailbox, no_more, plain, quoted, bracketed, AreMailboxes, split_address_list-AreMailboxes,
}
use mailscript.Rules.Mime.{MimeReader, nothing_decoded, decode_mime}
use mailscript.Rules.Mime.Summary.{IsSummary}
use mailscript.Rules.Mime.Walk.{decode_mime-IsSummary}
use mailscript.Rules.Message.{ParsedMessage, parse_message}
use mailscript.Rules.Message.Parsing.{Parts, parse_message_total}
use mailscript.Rules.Reported.{AuthResults, no_results, read_headers, read_signatures}
use mailscript.Rules.Reported.Strength.{of_dmarc, result_of, claims_of}
use mailscript.Rules.Reported.Kept.{IsStrongest, read_headers-IsStrongest}
use mailscript.Rules.Reported.Trust.{is_listed, read_headers-trusted}
use mailscript.Rules.Reported.Verdict.{dmarc_pass}
use mailscript.Rules.Reported.Pass.{
  reporting_fields, results_of, HasNoFail, PassGround, dmarc_pass_sound,
}

abbrev lines : List Bytes
lines = codes "A:b" ∷ codes " c" ∷ []

lines-AreLines : All IsLine lines
unfolding codes
lines-AreLines = ((refl, omega arith), ((refl, omega arith), tt))

parse_header_block-join_example :
    Text.join crlf (map Field.raw (parse_header_block (Text.join crlf lines)))
    ≡ Text.join crlf lines
parse_header_block-join_example = parse_header_block-join lines lines-AreLines

abbrev field : Bytes → Bytes → ℕ → Field
field name value n = record {
  name = name;
  value = value;
  raw = name ++ (b':' ∷ value);
  line_num = n;
  folded = false;
  max_octet = 0;
}

abbrev reporting : List Field
reporting =
    field (codes "From") (codes "a@x.org") 1
    ∷ field (codes "authentication-results") (codes "mx.x.org; dmarc=pass") 2
    ∷ []

set_headers-accessors_example :
    (d : Context) × (set_headers reporting new_context ≡ some d)
    × (d.header_list ≡ reporting)
    × (d.received_headers ≡ values_of (codes "Received") reporting)
    × AgreesWith d (codes "FROM") (values_of (codes "FROM") reporting)
set_headers-accessors_example = set_headers-accessors reporting new_context (codes "FROM")

abbrev mailboxes : List Bytes
mailboxes = codes "\"Doe, J\" <j@x.org>" ∷ codes " a@x.org" ∷ []

address-IsMailbox : IsMailbox (codes "@x.org")
unfolding codes
address-IsMailbox = plain b'@' refl (
    plain b'x' refl (plain b'.' refl (plain b'o' refl (plain b'r' refl (plain b'g' refl no_more)))))

mailboxes-AreMailboxes : AreMailboxes mailboxes
unfolding codes Text.trim_space Text.trim_left
mailboxes-AreMailboxes = (
  quoted (codes "Doe, J") (omega arith) (
      plain b' ' refl (
        bracketed (codes "j@x.org") (refl, (refl, (refl, (refl, (refl, (refl, (refl, tt)))))))
          no_more)),
  (plain b' ' refl (plain b'a' refl address-IsMailbox), refl),
)

mailboxes-IsUtf8 : IsUtf8 (Text.join (b',' ∷ []) mailboxes)
unfolding codes Text.join
mailboxes-IsUtf8 = ascii-IsUtf8 _ (omega arith)

split_address_list-AreMailboxes_example :
    split_address_list (Text.join (b',' ∷ []) mailboxes) ≡ mailboxes
split_address_list-AreMailboxes_example =
    split_address_list-AreMailboxes mailboxes mailboxes-AreMailboxes mailboxes-IsUtf8

-- net/mail that takes every text as an address.
abbrev parser : MailParser
parser = record {
  parse_mailbox = λ s. some ([], s);
  parse_mailboxes = λ s. none;
  decode_header = λ s. none;
}

-- Every type is read as it stands, with one boundary; every multipart has a text and a file.
abbrev reader : MimeReader
reader = record {
  mail = parser;
  parse_media_type = λ s. record {
    media_type = s;
    params = (codes "boundary", codes "b") ∷ [];
    failed = Text.is_empty s;
  };
  raw_parts = λ body boundary.
      record { header = λ name. codes "text/plain"; body = body; failed = false }
      ∷ record { header = λ name. codes "attachment"; body = body; failed = false }
      ∷ [];
  read_quoted_printable = λ s. (s, false);
  sha256_hex = λ s. s;
}

decode_mime-IsSummary_example :
    let decoded = decode_mime reader (codes "multipart/mixed") [] [] (codes "hello") in
    (decoded ≡ record nothing_decoded { text_body = codes "hello" }) ⊎ IsSummary decoded
decode_mime-IsSummary_example =
    decode_mime-IsSummary reader (codes "multipart/mixed") [] [] (codes "hello")

abbrev message : Bytes
message = codes "From: a@x.org\n\nhello"

parse_message_total_example :
    (m : ParsedMessage) × (parse_message reader message ≡ some m)
    × Parts message (m.raw_header_block, m.raw_body)
    × (m.context.header_list ≡ parse_header_block m.raw_header_block)
    × (m.mime_type ≡ first_value (values_of (codes "Content-Type") m.context.header_list))
    × (m.sender_domain
        ≡ domain_of reader.mail (first_value (values_of (codes "From") m.context.header_list)))
parse_message_total_example = parse_message_total reader message

abbrev trusted : List Bytes
trusted = codes " MX.x.org" ∷ []

abbrev reports : List Bytes
reports = codes "mx.x.org; dmarc=pass" ∷ codes "evil.example; dmarc=fail (no; really)" ∷ []

read_headers-IsStrongest_example :
    let kept = result_of of_dmarc (read_headers trusted reports (read_signatures [] no_results)) in
    ((kept ≡ []) × (claims_of of_dmarc reports ≡ []))
    ⊎ IsStrongest kept (claims_of of_dmarc reports)
read_headers-IsStrongest_example = read_headers-IsStrongest of_dmarc trusted reports []

read_headers-trusted_example :
    (read_headers trusted reports no_results).trusted
    ≡ (no_results.trusted || any (is_listed trusted) reports)
read_headers-trusted_example = read_headers-trusted trusted reports no_results

-- The fail of an unknown server is kept.
fail_is_kept : (read_headers trusted reports no_results).dmarc ≡ codes "fail"
unfolding read_headers Text.eq Text.fields Text.to_lower Text.trim_left codes
    mailscript.Rules.Reported.Tokens.split_from mailscript.Rules.Reported.Tokens.strip_from
    mailscript.Text.Runes.write_runes mailscript.Text.Runes.runes_from
fail_is_kept = refl

abbrev reported : Context
reported = record {
  headers =
      (codes "From", codes "a@x.org")
      ∷ (codes "Authentication-Results", codes "mx.x.org; dmarc=pass")
      ∷ [];
  header_list = reporting;
  header_index = (codes "from", 0 ∷ []) ∷ (codes "authentication-results", 1 ∷ []) ∷ [];
  received_headers = [];
  removed_headers = [];
}

reported-set : set_headers reporting new_context ≡ some reported
unfolding set_headers Text.eq Text.equal_fold Text.join Text.split Text.to_lower Text.trim_left
    Text.trim_space codes mailscript.Rules.Context.append_at
    mailscript.Rules.Context.canonical_header_name mailscript.Rules.Context.fold_value
    mailscript.Rules.Context.get mailscript.Rules.Context.get_all
    mailscript.Rules.Context.index_fields mailscript.Rules.Context.lookup
    mailscript.Rules.Context.record_fields mailscript.Rules.Context.reindex
reported-set = refl

reported-passes : dmarc_pass (λ d. some d) parser [] reported ≡ some true
unfolding dmarc_pass Text.eq Text.equal_fold Text.fields Text.trim_left codes
    mailscript.Rules.Context.fold_value mailscript.Rules.Context.lookup
    mailscript.Rules.Context.value_at mailscript.Rules.Context.values_at
    mailscript.Rules.Reported.Tokens.split_from mailscript.Rules.Reported.Tokens.strip_from
    mailscript.Text.Runes.write_runes mailscript.Text.Runes.runes_from
reported-passes = refl

dmarc_pass_sound_example :
    let claims = claims_of of_dmarc (reporting_fields reporting) in
    let from = domain_of parser (first_value (values_of (codes "From") reporting)) in
    HasNoFail claims × PassGround (λ d. some d) (results_of [] reporting) from claims
dmarc_pass_sound_example =
    dmarc_pass_sound (λ d. some d) parser [] reporting new_context reported reported-set
      reported-passes

add_header_line-set_headers_example :
    add_header_line (codes "FROM") (codes "b@y.org") reported
    ≡ set_headers
        (reporting
          ++ (record {
            name = codes "FROM";
            value = codes "b@y.org";
            raw = codes "FROM" ++ (b':' ∷ b' ' ∷ codes "b@y.org");
            line_num = length reporting + 1;
            folded = false;
            max_octet = 0;
          }
              ∷ []))
        reported
add_header_line-set_headers_example =
    add_header_line-set_headers reporting new_context reported (codes "FROM") (codes "b@y.org")
      reported-set
