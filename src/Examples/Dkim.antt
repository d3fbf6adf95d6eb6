-- ===== src/Examples/Dkim.antt =====
-- The signature of the message, as pkg/authverify/dkim.go verifies it.
use mailscript.Base.{any, ok, ℕ, ◌≤◌, ◌≡◌, refl, true, [], ◌∷◌}
use mailscript.Text
use mailscript.Text.{Bytes, codes}
use mailscript.Dkim.Key.{dkim_pass}
use mailscript.Dkim.Fields.{count_header}
use mailscript.Dkim.Tags.{Tags, parse_dkim_tags, parse_strict_dkim_tags}
use mailscript.Dkim.Tags.Agreement.{AreStrict, parse_strict_dkim_tags-AreStrict}
use mailscript.Dkim.Signature.{verify_one_message_signature}
use mailscript.Dkim.Signature.Soundness.{IsVerified, verify_one_message_signature-IsVerified}
use mailscript.Dkim.Result.{signature_field, verify_one_dkim, verify_dkim}
use mailscript.Dkim.Result.Passing.{NamedAt, verify_dkim_sound}
use mailscript.Examples.Signed.{crypto, records, headers, body, signed}

signed-passes : (verify_one_message_signature crypto records signed).result ≡ dkim_pass
unfolding verify_one_message_signature Text.atoi Text.cut Text.decimal_from Text.eq Text.equal_fold
    Text.has_prefix Text.has_suffix Text.join Text.non_empty Text.parse_uint Text.remove_byte
    Text.split Text.split_func Text.to_lower Text.trim Text.trim_left Text.trim_right
    Text.trim_space Text.trim_suffix codes mailscript.Dkim.Canonical.canonicalize_body
    mailscript.Dkim.Canonical.canonicalize_header mailscript.Dkim.Canonical.empty_body
    mailscript.Dkim.Canonical.end_body mailscript.Dkim.Canonical.relax_body
    mailscript.Dkim.Canonical.relax_line mailscript.Dkim.Canonical.span_space
    mailscript.Dkim.Canonical.split_crlf mailscript.Dkim.Canonical.strip_b_value
    mailscript.Dkim.Canonical.strip_signature_value mailscript.Dkim.Fields.collapse_from
    mailscript.Dkim.Fields.collapse_whitespace mailscript.Dkim.Fields.contains_fold
    mailscript.Dkim.Fields.crlf_to_lf mailscript.Dkim.Fields.lf_to_crlf
    mailscript.Dkim.Fields.split_header_list mailscript.Dkim.Fields.strip_whitespace
    mailscript.Dkim.Fields.unfold_lines mailscript.Dkim.Key.fetch_dkim_key
    mailscript.Dkim.Key.key_of_tags mailscript.Dkim.Key.parse_key
    mailscript.Dkim.Key.parse_key_record mailscript.Dkim.Key.parse_rsa
    mailscript.Dkim.Outcome.bit_length mailscript.Dkim.Outcome.bits_from
    mailscript.Dkim.Signature.canon_names mailscript.Dkim.Signature.canon_of
    mailscript.Dkim.Signature.check_algorithm mailscript.Dkim.Signature.check_body
    mailscript.Dkim.Signature.check_body_hash mailscript.Dkim.Signature.check_canon
    mailscript.Dkim.Signature.check_expiry mailscript.Dkim.Signature.check_headers
    mailscript.Dkim.Signature.check_headers_signed mailscript.Dkim.Signature.check_key
    mailscript.Dkim.Signature.check_length mailscript.Dkim.Signature.check_required
    mailscript.Dkim.Signature.check_signature mailscript.Dkim.Signature.check_stamp
    mailscript.Dkim.Signature.is_expired mailscript.Dkim.Signature.is_future
    mailscript.Dkim.Outcome.pass mailscript.Dkim.Signature.truncate_body
    mailscript.Dkim.Signature.value_at mailscript.Dkim.SignedInput.build_signed_header_input
    mailscript.Dkim.SignedInput.signed_fields mailscript.Dkim.SignedInput.take_last
    mailscript.Dkim.SignedInput.without mailscript.Dkim.Tags.parse_strict_dkim_tags
    mailscript.Dkim.Tags.read_strict_tag mailscript.Dkim.Tags.read_strict_tags
    mailscript.Dkim.Tags.tag_value mailscript.Text.Base64.decode
signed-passes = refl

verify_one_message_signature-IsVerified_example :
    IsVerified crypto records signed (verify_one_message_signature crypto records signed)
verify_one_message_signature-IsVerified_example =
    verify_one_message_signature-IsVerified crypto records signed signed-passes

pub domain-reported :
    (verify_dkim crypto records headers body 0).passing_domains ≡ codes "example.org" ∷ []
unfolding verify_dkim Text.atoi Text.cut Text.decimal_from Text.eq Text.equal_fold Text.has_prefix
    Text.has_suffix Text.join Text.non_empty Text.parse_uint Text.remove_byte Text.split
    Text.split_func Text.to_lower Text.trim Text.trim_left Text.trim_right Text.trim_space
    Text.trim_suffix codes count_header mailscript.Dkim.Canonical.canonicalize_body
    mailscript.Dkim.Canonical.canonicalize_header mailscript.Dkim.Canonical.empty_body
    mailscript.Dkim.Canonical.end_body mailscript.Dkim.Canonical.relax_body
    mailscript.Dkim.Canonical.relax_line mailscript.Dkim.Canonical.span_space
    mailscript.Dkim.Canonical.split_crlf mailscript.Dkim.Canonical.strip_b_value
    mailscript.Dkim.Canonical.strip_signature_value mailscript.Dkim.Fields.collapse_from
    mailscript.Dkim.Fields.collapse_whitespace mailscript.Dkim.Fields.contains_fold
    mailscript.Dkim.Fields.crlf_to_lf mailscript.Dkim.Fields.lf_to_crlf
    mailscript.Dkim.Fields.split_header_list mailscript.Dkim.Fields.strip_whitespace
    mailscript.Dkim.Fields.unfold_lines mailscript.Dkim.Key.fetch_dkim_key
    mailscript.Dkim.Key.key_of_tags mailscript.Dkim.Key.parse_key
    mailscript.Dkim.Key.parse_key_record mailscript.Dkim.Key.parse_rsa
    mailscript.Dkim.Result.passing mailscript.Dkim.Result.positions_from
    mailscript.Dkim.Result.strongest mailscript.Dkim.Result.verify_signatures
    mailscript.Dkim.Outcome.bit_length mailscript.Dkim.Outcome.bits_from
    mailscript.Dkim.Signature.canon_names mailscript.Dkim.Signature.canon_of
    mailscript.Dkim.Signature.check_algorithm mailscript.Dkim.Signature.check_body
    mailscript.Dkim.Signature.check_body_hash mailscript.Dkim.Signature.check_canon
    mailscript.Dkim.Signature.check_expiry mailscript.Dkim.Signature.check_headers
    mailscript.Dkim.Signature.check_headers_signed mailscript.Dkim.Signature.check_key
    mailscript.Dkim.Signature.check_length mailscript.Dkim.Signature.check_required
    mailscript.Dkim.Signature.check_signature mailscript.Dkim.Signature.check_stamp
    mailscript.Dkim.Signature.is_expired mailscript.Dkim.Signature.is_future
    mailscript.Dkim.Outcome.pass mailscript.Dkim.Signature.truncate_body
    mailscript.Dkim.Signature.value_at mailscript.Dkim.SignedInput.build_signed_header_input
    mailscript.Dkim.SignedInput.signed_fields mailscript.Dkim.SignedInput.take_last
    mailscript.Dkim.SignedInput.without mailscript.Dkim.Tags.parse_strict_dkim_tags
    mailscript.Dkim.Tags.read_strict_tag mailscript.Dkim.Tags.read_strict_tags
    mailscript.Dkim.Tags.tag_value mailscript.Text.Base64.decode verify_one_dkim
    verify_one_message_signature
domain-reported = refl

domain-listed :
    any (Text.eq (codes "example.org")) (verify_dkim crypto records headers body 0).passing_domains
    ≡ true
unfolding codes Text.eq
domain-listed = rw domain-reported refl

verify_dkim_sound_example :
    (count_header headers (codes "From") ≤ 1)
    × ((i : ℕ) × NamedAt signature_field headers i
        × ((verify_one_dkim crypto records headers body 0 i).domain ≡ codes "example.org")
        × IsVerified crypto records
            (record {
              headers = headers;
              sig_index = i;
              body = body;
              now = 0;
              field_name = signature_field;
              require_version = true;
            })
            (verify_one_dkim crypto records headers body 0 i))
verify_dkim_sound_example =
    verify_dkim_sound crypto records headers body 0 (codes "example.org") domain-listed

abbrev tag_list : Bytes
tag_list = codes " v=1; d = example.org ;s=k;"

abbrev tags_read : Tags
tags_read = (codes "v", codes "1") ∷ (codes "d", codes "example.org") ∷ (codes "s", codes "k") ∷ []

tag_list-read : parse_strict_dkim_tags tag_list ≡ ok tags_read
unfolding parse_strict_dkim_tags Text.cut Text.eq Text.split Text.to_lower Text.trim_left
    Text.trim_space codes
tag_list-read = refl

parse_strict_dkim_tags-AreStrict_example :
    (parse_dkim_tags tag_list ≡ tags_read) × AreStrict tags_read
parse_strict_dkim_tags-AreStrict_example =
    parse_strict_dkim_tags-AreStrict tag_list tags_read tag_list-read
