-- ===== src/Examples/Verify.antt =====
-- The verification of the message as a whole, as pkg/authverify/verify.go does it.
use mailscript.Base.{
  length, ok, ℤ, ℕ, ◌≡◌, refl, sym, subst, ◌↔◌, ◌⊎◌, true, false, none, some, List, [], ◌∷◌,
}
use mathlib.Core.List.{Memᴰ}
use mailscript.Text
use mailscript.Text.{Bytes, codes}
use mailscript.Spf.Types.{spf_none}
use mailscript.Spf.Client.{no_client_ip, Outcome}
use mailscript.Dmarc.Record.{policy_none, DmarcRecord, lookup_dmarc}
use mailscript.Dmarc.Verdict.{dmarc_pass, Evaluation, is_set, verify_dmarc}
use mailscript.Dkim.Outcome.{SignatureResult, nothing_read}
use mailscript.Dkim.Canonical.{canonicalize_body}
use mailscript.Dkim.Fields.{Headers}
use mailscript.Dkim.Key.{dkim_pass}
use mailscript.Dkim.Signature.{verify_one_message_signature}
use mailscript.Dkim.Signature.Soundness.{IsVerified}
use mailscript.Dkim.Result.{verify_dkim}
use mailscript.Arc.Chain.{verify_arc}
use mailscript.Dane.Discovery.{TlsaAnswer}
use mailscript.Verify.{
  Message, Services, Verification, from_domain_of, spf_part, is_dmarc_pass, verified, verify,
  disposition,
}
use mailscript.Verify.Authentication.{IsAligned, verify_authenticated}
use mailscript.Verify.Authentication.Provenance.{SpfSpeaks, DkimSpeaks, verify-IsGenuine}
use mailscript.Verify.Report.{covers_part, authentication_results, warnings}
use mailscript.Verify.Report.Parts.{AreClean}
use mailscript.Verify.Report.Methods.{IsReported, results_of-authentication_results}
use mailscript.Verify.Report.Caveats.{signed_at, warnings-covers_part}
use mailscript.Examples.Dmarc.{last_two}
use mailscript.Examples.Dkim.{domain-reported}
use mailscript.Examples.Signed.{crypto, records, headers, body}

abbrev no_tlsa : Bytes → ℤ → TlsaAnswer
no_tlsa host port = record { name = host; records = []; secure = false; found = false; error = [] }

abbrev services : Services
services = record { crypto = crypto; lookup_tlsa = no_tlsa; etld_plus_one = last_two }

abbrev message : Message
message = record {
  headers = headers;
  body = body;
  client_ip = [];
  mail_from = codes "ann@bounces.example.org";
  helo = [];
  from_domain = [];
  now = 0;
  check_dane = false;
}

abbrev no_spf : Outcome
no_spf = record {
  result = spf_none;
  domain = codes "bounces.example.org";
  sender = [];
  client_ip = [];
  mechanism = [];
  explanation = some no_client_ip;
  spf_record = [];
  lookups = 0;
}

message-spf_part : spf_part records message ≡ some no_spf
unfolding spf_part Text.is_in Text.last_index_byte Text.to_lower Text.trim_left Text.trim_space
    Text.trim_suffix codes mailscript.Verify.angle_addr mailscript.Verify.domain_of_address
message-spf_part = refl

verify_authenticated_example :
    (r : Verification) × (verify services records message ≡ some r)
    × ((r.authenticated ≡ true) ↔ IsAligned services records message no_spf)
    × (r.authenticated ≡ true → disposition r ≡ policy_none)
verify_authenticated_example = verify_authenticated services records message no_spf message-spf_part

abbrev evaluation : List Bytes → Evaluation
evaluation =
    verify_dmarc last_two records (codes "mail.example.org") spf_none (codes "bounces.example.org")

abbrev verification : Verification
verification = record {
  spf = no_spf;
  dkim = verify_dkim crypto records headers body 0;
  arc = verify_arc crypto records headers body 0;
  dmarc = evaluation (verify_dkim crypto records headers body 0).passing_domains;
  dane = none;
  from_domain = codes "mail.example.org";
  authenticated =
      is_dmarc_pass (evaluation (verify_dkim crypto records headers body 0).passing_domains).result;
}

message-from_domain_of : from_domain_of message ≡ codes "mail.example.org"
unfolding from_domain_of Text.equal_fold Text.index_byte Text.is_in Text.last_index_byte
    Text.to_lower Text.trim_left Text.trim_space Text.trim_suffix codes mailscript.Verify.angle_addr
    mailscript.Verify.domain_of_address mailscript.Verify.header_value
message-from_domain_of = refl

message-verify : verify services records message ≡ some verification
unfolding verify verified
message-verify = rw (message-spf_part, message-from_domain_of)

evaluation-dmarc_pass : (evaluation (codes "example.org" ∷ [])).result ≡ dmarc_pass
unfolding verify_dmarc Text.atoi Text.cut Text.decimal_from Text.eq Text.has_prefix Text.has_suffix
    Text.non_empty Text.parse_uint Text.split Text.split_func Text.to_lower Text.trim Text.trim_left
    Text.trim_space Text.trim_suffix codes lookup_dmarc mailscript.Dmarc.Alignment.domains_align
    mailscript.Dmarc.Alignment.same_organization mailscript.Dmarc.Record.fetch_dmarc_record
    mailscript.Dmarc.Record.first_record mailscript.Dmarc.Record.mode_of
    mailscript.Dmarc.Record.normal_domain mailscript.Dmarc.Record.normalize_policy
    mailscript.Dmarc.Record.organizational_record mailscript.Dmarc.Record.parse_dmarc_record
    mailscript.Dmarc.Record.percent_of mailscript.Dmarc.Record.read_part
    mailscript.Dmarc.Record.read_parts mailscript.Dmarc.Record.set_tag
    mailscript.Dmarc.Record.split_uri_list mailscript.Dmarc.Verdict.aligned_domains
    mailscript.Dmarc.Verdict.alignment_summary mailscript.Dmarc.Verdict.applicable_policy
    mailscript.Dmarc.Verdict.decide_result mailscript.Dmarc.Verdict.evaluate_record
    mailscript.Dmarc.Verdict.is_strict mailscript.Dmarc.Verdict.spf_alignment
evaluation-dmarc_pass = refl

message-authenticated : verification.authenticated ≡ true
message-authenticated = rw (domain-reported, evaluation-dmarc_pass)

verify-IsGenuine_example :
    (Text.is_empty (Text.to_lower (Text.trim_space (from_domain_of message))) ≡ false)
    × ((d : DmarcRecord) × (lookup_dmarc last_two records
            (Text.to_lower (Text.trim_space (from_domain_of message)))
          ≡ ok (some d))
        × (is_set d.policy ≡ true)
        × (SpfSpeaks services records message d
              (Text.to_lower (Text.trim_space (from_domain_of message)))
            ⊎ DkimSpeaks services records message d
                (Text.to_lower (Text.trim_space (from_domain_of message)))))
verify-IsGenuine_example =
    verify-IsGenuine services records message verification message-verify message-authenticated

-- One signature, of a part of the body.
abbrev partial : SignatureResult
partial = record nothing_read {
  domain = codes "example.org";
  body_truncated = true;
  signed_bytes = 3;
  body_bytes = 9;
}

abbrev partly_signed : Verification
partly_signed = record verification {
  dkim = record verification.dkim {
    signatures = partial ∷ [];
    passing_domains = codes "example.org" ∷ [];
  };
}

partly_signed-AreClean : AreClean partly_signed (codes "mx.example.org")
unfolding codes
partly_signed-AreClean = record {
  server = refl;
  spf_domain = refl;
  passing = (refl, tt);
  from_domain = refl;
}

results_of-authentication_results_example :
    IsReported partly_signed (authentication_results partly_signed (codes "mx.example.org"))
results_of-authentication_results_example =
    results_of-authentication_results partly_signed (codes "mx.example.org") partly_signed-AreClean

-- The signature is of three bytes of the body, which has seven in its canonical form.
abbrev part_headers : Headers
part_headers =
    (
      codes "DKIM-Signature",
      codes "v=1; a=ed25519-sha256; d=example.org; s=k; h=from; l=3; bh=aA==; b=aA==",
    )
    ∷ (codes "From", codes "Ann <ann@mail.example.org>")
    ∷ []

abbrev part_signature : SignatureResult
part_signature =
    verify_one_message_signature crypto records (signed_at crypto records part_headers body 0 0)

part_signature-passes : part_signature.result ≡ dkim_pass
unfolding verify_one_message_signature Text.atoi Text.cut Text.decimal_from Text.eq Text.equal_fold
    Text.has_prefix Text.has_suffix Text.join Text.non_empty Text.parse_uint Text.remove_byte
    Text.split Text.split_func Text.to_lower Text.trim Text.trim_left Text.trim_right
    Text.trim_space Text.trim_suffix codes mailscript.Dkim.Canonical.canonicalize_body
    mailscript.Dkim.Canonical.canonicalize_header mailscript.Dkim.Canonical.empty_body
    mailscript.Dkim.Canonical.end_body mailscript.Dkim.Canonical.relax_body
    mailscript.Dkim.Canonical.relax_line mailscript.Dkim.Canonical.span_space
    mailscript.Dkim.Canonical.split_crlf mailscript.Dkim.Canonical.strip_b_value
    mailscript.Dkim.Canonical.strip_signature_value mailscript.Dkim.Fields.collapse_from
    mailscript.Dkim.Fields.collapse_whitespace mailscript.Dkim.Fields.contains_fold
    mailscript.Dkim.Fields.crlf_to_lf mailscript.Dkim.Fields.lf_to_crlf
    mailscript.Dkim.Fields.split_header_list mailscript.Dkim.Fields.strip_whitespace
    mailscript.Dkim.Fields.unfold_lines mailscript.Dkim.Key.fetch_dkim_key
    mailscript.Dkim.Key.key_of_tags mailscript.Dkim.Key.parse_key
    mailscript.Dkim.Key.parse_key_record mailscript.Dkim.Key.parse_rsa
    mailscript.Dkim.Outcome.bit_length mailscript.Dkim.Outcome.bits_from
    mailscript.Dkim.Signature.canon_names mailscript.Dkim.Signature.canon_of
    mailscript.Dkim.Signature.check_algorithm mailscript.Dkim.Signature.check_body
    mailscript.Dkim.Signature.check_body_hash mailscript.Dkim.Signature.check_canon
    mailscript.Dkim.Signature.check_expiry mailscript.Dkim.Signature.check_headers
    mailscript.Dkim.Signature.check_headers_signed mailscript.Dkim.Signature.check_key
    mailscript.Dkim.Signature.check_length mailscript.Dkim.Signature.check_required
    mailscript.Dkim.Signature.check_signature mailscript.Dkim.Signature.check_stamp
    mailscript.Dkim.Signature.is_expired mailscript.Dkim.Signature.is_future
    mailscript.Dkim.Outcome.pass mailscript.Dkim.Signature.truncate_body
    mailscript.Dkim.Signature.value_at mailscript.Dkim.SignedInput.build_signed_header_input
    mailscript.Dkim.SignedInput.signed_fields mailscript.Dkim.SignedInput.take_last
    mailscript.Dkim.SignedInput.without mailscript.Dkim.Tags.parse_strict_dkim_tags
    mailscript.Dkim.Tags.read_strict_tag mailscript.Dkim.Tags.read_strict_tags
    mailscript.Dkim.Tags.tag_value mailscript.Text.Base64.decode
part_signature-passes = refl

part_signatures : (verify_dkim crypto records part_headers body 0).signatures ≡ part_signature ∷ []
unfolding verify_dkim codes Text.equal_fold Text.to_lower mailscript.Dkim.Fields.count_header
    mailscript.Dkim.Result.positions_from mailscript.Dkim.Result.verify_signatures
    mailscript.Dkim.Result.verify_one_dkim Text.eq Text.trim_space Text.trim_left
part_signatures = refl

abbrev part_verification : Verification
part_verification = record verification { dkim = verify_dkim crypto records part_headers body 0 }

warnings-covers_part_example :
    (i : ℕ) × (v : IsVerified crypto records
      (signed_at crypto records part_headers body 0 i)
      part_signature)
    × ((v.covered.body ≡ canonicalize_body body v.covered.body_canon)
        ⊎ Memᴰ
            (covers_part part_signature.domain
              (length v.covered.body)
              (length (canonicalize_body body v.covered.body_canon)))
            (warnings part_verification))
warnings-covers_part_example =
    warnings-covers_part crypto records part_headers body 0 part_verification part_signature refl
      (subst (λ l. Memᴰ part_signature l) (sym part_signatures) (Memᴰ.head refl))
      part_signature-passes
