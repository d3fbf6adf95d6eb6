-- ===== src/Examples/Signed.antt =====
-- A message that its author's domain signed, with an ARC set, and the DNS records behind it. The hash
-- and the signature scheme take one value for all.
use mailscript.Base.{if◌then◌else◌, true, false, none, [], ◌∷◌}
use mailscript.Text.{Bytes, codes}
use mailscript.Text
use mailscript.Spf.Types.{Resolver}
use mailscript.Dkim.Fields.{Headers}
use mailscript.Dkim.Key.{Crypto}
use mailscript.Dkim.Outcome.{Signed}

abbrev pub crypto : Crypto
crypto = record {
  sha256 = λ _. b'h' ∷ [];
  parse_pkix = λ _. none;
  parse_pkcs1 = λ _. none;
  rsa_verify = λ _ _ _. false;
  ed25519_verify = λ _ _ _. true;
}

abbrev key_record : Bytes
key_record = codes "v=DKIM1; k=ed25519; p=AAAAAAAAAAAAAAAAAAAAAAAAAAAAAAAAAAAAAAAAAAA="

abbrev pub records : Resolver
records = record {
  enabled = true;
  lookup_txt = λ domain.
      if Text.eq domain (codes "_dmarc.example.org")
      then codes "v=DMARC1; p=reject" ∷ []
      else if Text.eq domain (codes "k._domainkey.example.org")
      then key_record ∷ []
      else [];
  lookup_host = λ _. [];
  lookup_mx = λ _. codes "mx.example.org" ∷ [];
  lookup_ptr = λ _. [];
}

abbrev pub headers : Headers
headers =
    (
      codes "DKIM-Signature",
      codes "v=1; a=ed25519-sha256; d=example.org; s=k; h=from; bh=aA==; b=aA==",
    )
    ∷ (codes "ARC-Seal", codes "i=1; a=ed25519-sha256; cv=none; d=example.org; s=k; b=aA==")
    ∷ (
      codes "ARC-Message-Signature",
      codes "i=1; a=ed25519-sha256; d=example.org; s=k; h=from; bh=aA==; b=aA==",
    )
    ∷ (codes "ARC-Authentication-Results", codes "i=1; mx.example.org; dkim=pass")
    ∷ (codes "From", codes "Ann <ann@mail.example.org>")
    ∷ []

abbrev pub body : Bytes
body = codes "Hello"

abbrev pub signed : Signed
signed = record {
  headers = headers;
  sig_index = 0;
  body = body;
  now = 0;
  field_name = codes "DKIM-Signature";
  require_version = true;
}
