-- ===== src/Dkim/Outcome.antt =====
-- The result of one signature of pkg/authverify/dkim.go, and what its verification is given.
use mailscript.Base.{◌==◌, if◌then◌else◌, ℤ, ℕ, zero, suc, ◌+◌, ◌/◌, Bool, false, List, []}
use mailscript.Text.{Bytes, codes}
use mailscript.Dkim.Fields.{Headers}
use mailscript.Dkim.Tags.{TagError}
use mailscript.Dkim.Key.{DkimResult, dkim_pass, dkim_permerror, KeyError}

-- The explanations, with what they name.
pub data Reason : Type 0 where
  unread verified no_resolver : Reason
  bad_tags : TagError → Reason
  bad_version bad_algorithm bad_header_canon bad_body_canon wrong_key_type : Bytes → Reason
  no_domain no_signature no_headers from_unsigned sha1_prohibited bad_expiry bad_length : Reason
  bad_body_hash body_changed bad_signature_text wrong_key signature_wrong : Reason
  expired_at : ℤ → Reason
  no_key : KeyError → Reason
  weak_key many_from : ℕ → Reason
  partly_signed : ℕ → ℕ → Reason

pub record SignatureResult : Type 0 where
  pub result : DkimResult
  pub domain : Bytes
  pub selector : Bytes
  pub identity : Bytes
  pub algorithm : Bytes
  pub headers_signed : List Bytes
  pub key_bits : ℕ
  pub explanation : Reason
  pub body_truncated : Bool
  pub signed_bytes : ℕ
  pub body_bytes : ℕ
  pub expired : Bool
  pub timestamp_future : Bool

abbrev pub min_rsa_key_bits : ℕ
min_rsa_key_bits = 1024

-- rsa-sha256 and ed25519-sha256, by the type of the key; the hash is SHA-256 in both.
pub data KeyKind : Type 0 where
  rsa ed25519 : KeyKind

abbrev pub kind_name : KeyKind → Bytes
kind_name rsa = codes "rsa"
kind_name ed25519 = codes "ed25519"

-- N.BitLen()
unfoldable pub bits_from : ℕ → ℕ → ℕ
bits_from zero n = 0
bits_from (suc fuel) n = let rest = bits_from fuel (n / 2) in if n == 0 then 0 else rest + 1

unfoldable pub bit_length : ℕ → ℕ
unfolding bits_from
bit_length n = bits_from n n

-- The arguments of one verification. `now` counts nanoseconds from 1970 on.
pub record Signed : Type 0 where
  pub headers : Headers
  pub sig_index : ℕ
  pub body : Bytes
  pub now : ℕ
  pub field_name : Bytes
  pub require_version : Bool

abbrev pub end_with : DkimResult → Reason → SignatureResult → SignatureResult
end_with result reason out = record out { result = result; explanation = reason }

abbrev pub refuse : Reason → SignatureResult → SignatureResult
refuse reason out = end_with dkim_permerror reason out

-- The last words of a pass.
unfoldable pub pass : SignatureResult → SignatureResult
pass out =
    end_with dkim_pass
      (if out.body_truncated then partly_signed out.signed_bytes out.body_bytes else verified) out

-- Before anything is read.
abbrev pub nothing_read : SignatureResult
nothing_read = record {
  result = dkim_permerror;
  domain = [];
  selector = [];
  identity = [];
  algorithm = [];
  headers_signed = [];
  key_bits = 0;
  explanation = unread;
  body_truncated = false;
  signed_bytes = 0;
  body_bytes = 0;
  expired = false;
  timestamp_future = false;
}
