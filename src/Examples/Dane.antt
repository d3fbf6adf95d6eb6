-- ===== src/Examples/Dane.antt =====
-- Mail hosts with TLSA records, as pkg/authverify/dane.go judges them.
use mailscript.Base.{ℤ, pos, ℕ, ◌≡◌, refl, inl, true, some, [], ◌∷◌}
use mailscript.Text
use mailscript.Text.{Bytes, codes}
use mailscript.Dane.Discovery.{
  TlsaRecord, TlsaAnswer, mail_port, is_usable, dane_available, dane_pass, check_dane,
  check_dane_domain,
}
use mailscript.Dane.Certificate.{Certificate, decode_hex, association, verify_dane_certificate}
use mailscript.Dane.Certificate.Soundness.{RecordAt, Authorizes, verify_dane_certificate-Authorizes}
use mailscript.Dane.Certificate.Completeness.{verify_dane_certificate-dane_pass}
use mailscript.Examples.Signed.{records}

-- The full certificate, named by its bytes.
abbrev whole : TlsaRecord
whole = record { usage = 3; selector = 0; matching_type = 0; certificate = codes "6869" }

abbrev pub lookup_tlsa : Bytes → ℤ → TlsaAnswer
lookup_tlsa host port = record {
  name = codes "_25._tcp.mx.example.org";
  records =
      record { usage = 1; selector = 0; matching_type = 0; certificate = codes "68" } ∷ whole ∷ [];
  secure = true;
  found = true;
  error = [];
}

abbrev leaf : Certificate
leaf = record { raw = codes "hi"; raw_subject_public_key_info = codes "key" }

abbrev constant : Bytes → Bytes
constant _ = b'h' ∷ []

abbrev host : Bytes
host = codes "mx.example.org"

leaf-passes :
    (verify_dane_certificate constant constant records lookup_tlsa host (pos 25) (leaf ∷ [])).result
    ≡ dane_pass
unfolding verify_dane_certificate Text.eq association check_dane codes decode_hex
    mailscript.Dane.Certificate.apply_matching_type mailscript.Dane.Certificate.candidates
    mailscript.Dane.Certificate.find_match mailscript.Dane.Certificate.judge_chain
    mailscript.Dane.Certificate.same_bytes mailscript.Dane.Certificate.select_association_data
    mailscript.Dane.Discovery.count_usable mailscript.Dane.Discovery.judge_answer
leaf-passes = refl

verify_dane_certificate-Authorizes_example :
    ((check_dane records lookup_tlsa host (pos 25)).result ≡ dane_available)
    × ((i : ℕ) × (r : TlsaRecord) × ((verify_dane_certificate constant constant records lookup_tlsa
            host
            (pos 25)
            (leaf ∷ [])).matched_record
          ≡ some i)
        × RecordAt i r (check_dane records lookup_tlsa host (pos 25)).records
        × Authorizes constant constant r (leaf ∷ []))
verify_dane_certificate-Authorizes_example =
    verify_dane_certificate-Authorizes constant constant records lookup_tlsa host (pos 25)
      (leaf ∷ []) leaf-passes

host-is_available : (check_dane records lookup_tlsa host (pos 25)).result ≡ dane_available
unfolding check_dane mailscript.Dane.Discovery.count_usable mailscript.Dane.Discovery.judge_answer
host-is_available = refl

whole-RecordAt : RecordAt 1 whole (check_dane records lookup_tlsa host (pos 25)).records
unfolding check_dane mailscript.Dane.Discovery.count_usable mailscript.Dane.Discovery.judge_answer
whole-RecordAt = refl

leaf-associated : association constant constant whole leaf ≡ some (codes "hi")
unfolding association mailscript.Dane.Certificate.apply_matching_type
    mailscript.Dane.Certificate.select_association_data
leaf-associated = refl

whole-published : decode_hex whole.certificate ≡ some (codes "hi")
unfolding decode_hex codes
whole-published = refl

leaf-Authorizes : Authorizes constant constant whole (leaf ∷ [])
leaf-Authorizes = record {
  cert = leaf;
  presented = inl (refl, inl refl);
  data_bytes = codes "hi";
  associated = leaf-associated;
  published = whole-published;
}

verify_dane_certificate-dane_pass_example :
    (verify_dane_certificate constant constant records lookup_tlsa host (pos 25) (leaf ∷ [])).result
    ≡ dane_pass
verify_dane_certificate-dane_pass_example =
    verify_dane_certificate-dane_pass constant constant records lookup_tlsa host (pos 25)
      (leaf ∷ []) host-is_available 1 whole whole-RecordAt leaf-Authorizes
