-- ===== src/TenantNames.antt =====
-- internal/controller/tenant_names.go, with Go's encoding/base32 on the eight bytes of a hash and
-- the conversion of a text to its UTF-8 bytes.
use Prim.Native.Char.{Char, code}
use cloudkit_operator.Prelude.{
  ℕ, zero, suc, ◌+◌, ◌*◌, ◌/◌, ◌%◌, String, List, [], ◌∷◌, ◌++◌, ltb, if◌then◌else◌, join_text,
}
use cloudkit_operator.Api.Tenant.{Tenant}
use cloudkit_operator.ComputeInstance.Version.{fnv1a}

unfoldable pub utf8_bytes : ℕ → List ℕ
utf8_bytes point =
    if ltb point 128
    then point ∷ []
    else if ltb point 2048
    then (192 + point / 64) ∷ (128 + point % 64) ∷ []
    else if ltb point 65536
    then (224 + point / 4096) ∷ (128 + point / 64 % 64) ∷ (128 + point % 64) ∷ []
    else (240 + point / 262144)
      ∷ (128 + point / 4096 % 64)
      ∷ (128 + point / 64 % 64)
      ∷ (128 + point % 64)
      ∷ []

-- []byte(s)
unfoldable pub bytes_of : String → List ℕ
unfolding utf8_bytes
bytes_of String.[] = []
bytes_of (String.◌∷◌ c s) = utf8_bytes (code c) ++ bytes_of s

unfoldable pub nth_char : String → ℕ → Char
nth_char String.[] n = "a"
nth_char (String.◌∷◌ c s) zero = c
nth_char (String.◌∷◌ c s) (suc n) = nth_char s n

abbrev pub base32_char : ℕ → Char
unfolding nth_char
base32_char digit = nth_char "abcdefghijklmnopqrstuvwxyz234567" digit

unfoldable pub base32_digits : ℕ → ℕ → String → String
base32_digits zero n out = out
base32_digits (suc digits) n out =
    base32_digits digits (n / 32) (String.◌∷◌ (base32_char (n % 32)) out)

-- Eight bytes are 13 digits of 5 bits: a zero bit fills the last one.
unfoldable pub encode_tenant_name : String → String
unfolding bytes_of fnv1a base32_digits
encode_tenant_name s = base32_digits 13 (fnv1a (bytes_of s) * 2) ""

unfoldable pub get_tenant_object_name : String → String
unfolding encode_tenant_name
get_tenant_object_name tenant_name = join_text "tenant-" (encode_tenant_name tenant_name)

unfoldable pub generate_tenant_namespace_name : Tenant → String
unfolding encode_tenant_name
generate_tenant_namespace_name t =
    join_text t.namespace (join_text "-" (encode_tenant_name t.spec_name))
