-- ===== src/Examples/Arc.antt =====
-- The ARC set of the message, as pkg/authverify/arc.go verifies it.
use mailscript.Base.{length, ok, ◌<◌, ◌≡◌, refl, []}
use mailscript.Text.{Bytes, codes}
use mailscript.Dkim.Fields.{count_header}
use mailscript.Dkim.Key.{dkim_pass}
use mailscript.Arc.Sets.{ArcSets, collect_sets}
use mailscript.Arc.Chain.{verify_arc}
use mailscript.Arc.Chain.Soundness.{IsGoodChain, verify_arc-IsGoodChain}
use mailscript.Examples.Signed.{crypto, records, headers, body}

chain-passes : (verify_arc crypto records headers body 0).result ≡ dkim_pass
unfolding verify_arc codes collect_sets mailscript.Arc.Sets.add_field mailscript.Arc.Sets.arc_field
    mailscript.Arc.Sets.arc_instance mailscript.Arc.Sets.slot_of mailscript.Arc.Sets.valid_instance
    mailscript.Dkim.Tags.parse_dkim_tags mailscript.Dkim.Tags.tag_value mailscript.Text.atoi
    mailscript.Text.cut mailscript.Text.eq mailscript.Text.split mailscript.Text.to_lower
    mailscript.Text.trim_left mailscript.Text.trim_space count_header mailscript.Arc.Chain.full_set
    mailscript.Arc.Chain.judge_ams mailscript.Arc.Chain.seal_set mailscript.Arc.Chain.verify_ams
    mailscript.Arc.Chain.verify_chain mailscript.Arc.Chain.verify_instance
    mailscript.Arc.Chain.verify_set_tags mailscript.Arc.Chain.verify_sets
    mailscript.Arc.Seal.header_at mailscript.Arc.Sets.fill_slot mailscript.Arc.Sets.find_set
    mailscript.Arc.Sets.put_set mailscript.Dkim.Signature.verify_one_message_signature
    mailscript.Dkim.Tags.parse_strict_dkim_tags mailscript.Text.equal_fold
    mailscript.Arc.Seal.build_arc_seal_input mailscript.Arc.Seal.check_seal
    mailscript.Arc.Seal.check_seal_tags mailscript.Arc.Seal.check_sealed
    mailscript.Arc.Seal.last_seal_lines mailscript.Arc.Seal.seal_lines
    mailscript.Arc.Seal.verify_arc_seal mailscript.Dkim.Canonical.canonicalize_body
    mailscript.Dkim.Canonical.canonicalize_header mailscript.Dkim.Canonical.empty_body
    mailscript.Dkim.Canonical.end_body mailscript.Dkim.Canonical.relax_body
    mailscript.Dkim.Canonical.relax_line mailscript.Dkim.Canonical.span_space
    mailscript.Dkim.Canonical.split_crlf mailscript.Dkim.Canonical.strip_b_value
    mailscript.Dkim.Canonical.strip_signature_value mailscript.Dkim.Fields.collapse_from
    mailscript.Dkim.Fields.collapse_whitespace mailscript.Dkim.Fields.contains_fold
    mailscript.Dkim.Fields.crlf_to_lf mailscript.Dkim.Fields.lf_to_crlf
    mailscript.Dkim.Fields.split_header_list mailscript.Dkim.Fields.strip_whitespace
    mailscript.Dkim.Fields.unfold_lines mailscript.Dkim.Key.fetch_dkim_key
    mailscript.Dkim.Key.key_of_tags mailscript.Dkim.Key.parse_key
    mailscript.Dkim.Key.parse_key_record mailscript.Dkim.Key.parse_rsa
    mailscript.Dkim.Outcome.bit_length mailscript.Dkim.Outcome.bits_from
    mailscript.Dkim.Signature.canon_names mailscript.Dkim.Signature.canon_of
    mailscript.Dkim.Signature.check_algorithm mailscript.Dkim.Signature.check_body
    mailscript.Dkim.Signature.check_body_hash mailscript.Dkim.Signature.check_canon
    mailscript.Dkim.Signature.check_expiry mailscript.Dkim.Signature.check_headers
    mailscript.Dkim.Signature.check_headers_signed mailscript.Dkim.Signature.check_key
    mailscript.Dkim.Signature.check_length mailscript.Dkim.Signature.check_required
    mailscript.Dkim.Signature.check_signature mailscript.Dkim.Signature.check_stamp
    mailscript.Dkim.Signature.is_expired mailscript.Dkim.Signature.is_future
    mailscript.Dkim.Outcome.pass mailscript.Dkim.Signature.truncate_body
    mailscript.Dkim.Signature.value_at mailscript.Dkim.SignedInput.build_signed_header_input
    mailscript.Dkim.SignedInput.signed_fields mailscript.Dkim.SignedInput.take_last
    mailscript.Dkim.SignedInput.without mailscript.Dkim.Tags.read_strict_tag
    mailscript.Dkim.Tags.read_strict_tags mailscript.Dkim.Tags.read_tag
    mailscript.Dkim.Tags.read_tags mailscript.Text.Base64.decode mailscript.Text.decimal_from
    mailscript.Text.has_prefix mailscript.Text.has_suffix mailscript.Text.join
    mailscript.Text.non_empty mailscript.Text.parse_uint mailscript.Text.remove_byte
    mailscript.Text.split_func mailscript.Text.trim mailscript.Text.trim_right
    mailscript.Text.trim_suffix
chain-passes = refl

verify_arc-IsGoodChain_example :
    (count_header headers (codes "From") ≡ 1)
    × ((sets : ArcSets) × (collect_sets [] 0 headers ≡ ok sets)
        × (0 < length sets)
        × IsGoodChain crypto records headers body 0 sets (length sets) 1 [])
verify_arc-IsGoodChain_example = verify_arc-IsGoodChain crypto records headers body 0 chain-passes
