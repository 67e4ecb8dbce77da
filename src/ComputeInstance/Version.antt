-- ===== src/ComputeInstance/Version.antt =====
-- The configuration versions: handleDesiredConfigVersion and handleReconciledConfigVersion of
-- internal/controller/computeinstance_controller.go, with Go's hash/fnv (FNV-1a on 64 bits) and
-- encoding/hex.
pub mod Hash
use Prim.Native.Nat.{bit_xor}
use Prim.Native.Char.{Char}
use Prim.Native.String
use cloudkit_operator.Prelude.{
  ℕ, zero, suc, ◌*◌, ◌/◌, ◌%◌, ◌^◌, String, Option, none, some, List, [], ◌∷◌, lookup, Result, ok,
  err, wrapped, GoError, Handler, pure, raise, lift, wrap, ◌>>=◌, ◌>>◌, join_text,
}
use cloudkit_operator.Api.ComputeInstance.{ComputeInstance}
use cloudkit_operator.ComputeInstance.Run.{
  Cluster, Run, current, modify, reconciled_config_version_annotation,
}

abbrev pub offset_basis : ℕ
offset_basis = 14695981039346656037

abbrev pub fnv_prime : ℕ
fnv_prime = 1099511628211

-- hash ^= byte; hash *= prime, on 64 bits
unfoldable pub fnv1a_from : ℕ → List ℕ → ℕ
fnv1a_from hash [] = hash
fnv1a_from hash (byte ∷ bytes) =
    fnv1a_from (bit_xor hash byte * fnv_prime % 18446744073709551616) bytes

unfoldable pub fnv1a : List ℕ → ℕ
unfolding fnv1a_from
fnv1a bytes = fnv1a_from offset_basis bytes

abbrev hex_digit : ℕ → Char
hex_digit zero = "0"
hex_digit (suc zero) = "1"
hex_digit (suc (suc zero)) = "2"
hex_digit (suc (suc (suc zero))) = "3"
hex_digit (suc (suc (suc (suc zero)))) = "4"
hex_digit (suc (suc (suc (suc (suc zero))))) = "5"
hex_digit (suc (suc (suc (suc (suc (suc zero)))))) = "6"
hex_digit (suc (suc (suc (suc (suc (suc (suc zero))))))) = "7"
hex_digit (suc (suc (suc (suc (suc (suc (suc (suc zero)))))))) = "8"
hex_digit (suc (suc (suc (suc (suc (suc (suc (suc (suc zero))))))))) = "9"
hex_digit (suc (suc (suc (suc (suc (suc (suc (suc (suc (suc zero)))))))))) = "a"
hex_digit (suc (suc (suc (suc (suc (suc (suc (suc (suc (suc (suc zero))))))))))) = "b"
hex_digit (suc (suc (suc (suc (suc (suc (suc (suc (suc (suc (suc (suc zero)))))))))))) = "c"
hex_digit (suc (suc (suc (suc (suc (suc (suc (suc (suc (suc (suc (suc (suc zero))))))))))))) = "d"
hex_digit (suc (suc (suc (suc (suc (suc (suc (suc (suc (suc (suc (suc (suc (suc zero)))))))))))))) =
    "e"
hex_digit _ = "f"

-- the digits of hasher.Sum(nil), which is the hash in big-endian order, in hexadecimal
unfoldable pub hex_digits : ℕ → ℕ → String → String
hex_digits zero n out = out
hex_digits (suc digits) n out = hex_digits digits (n / 16) (String.◌∷◌ (hex_digit (n % 16)) out)

unfoldable pub version_of : List ℕ → String
unfolding fnv1a hex_digits
version_of spec_json = hex_digits 16 (fnv1a spec_json) ""

abbrev set_desired : String → ComputeInstance → ComputeInstance
set_desired version ci = record ci {
  status = record ci.status { desired_config_version = version };
}

abbrev pub set_reconciled : String → ComputeInstance → ComputeInstance
set_reconciled version ci = record ci {
  status = record ci.status { reconciled_config_version = version };
}

module _ {S : Type 0} (cluster : Cluster) where
  unfoldable pub handle_desired_config_version : Handler (Run S) (Unit {0})
  unfolding current modify lift
  handle_desired_config_version = do
    ci ← current
    spec_json ← wrap "failed to marshal spec to JSON" (lift (cluster.marshal_spec ci.spec))
    modify (set_desired (version_of spec_json))

abbrev annotated_version : Option String → String
annotated_version none = ""
annotated_version (some version) = version

unfoldable pub handle_reconciled_config_version : {S : Type 0} → Handler (Run S) (Unit {0})
unfolding modify lookup
handle_reconciled_config_version = modify (λ ci.
    set_reconciled (annotated_version (lookup reconciled_config_version_annotation ci.annotations))
      ci)
