-- ===== src/Session/RpcIds.antt =====
-- lib/session.ts: `generateRpcId`.
use genieacs.Common.Eq.{JsString}
use genieacs.Common.{
  ℕ, zero, suc, ◌+◌, ◌-◌, ◌/◌, ◌%◌, [], ◌∷◌, ◌++◌, length, drop, ltb, if◌then◌else◌,
}
use genieacs.Session.{Session}

abbrev lower_hex_digit : ℕ → ℕ
lower_hex_digit d = if ltb d 10 then b'0' + d else b'a' + (d - 10)

-- `k.toString(16)`, on fuel for its digits
unfoldable pub hex_from : ℕ → ℕ → JsString
hex_from zero k = []
hex_from (suc n) k =
    let more = hex_from n (k / 16) in
    if ltb k 16 then lower_hex_digit k ∷ [] else more ++ lower_hex_digit (k % 16) ∷ []

-- a number has no more digits than it counts, and one more
unfoldable pub hex : ℕ → JsString
unfolding hex_from
hex k = hex_from (suc k) k

-- `("0" + k.toString(16)).slice(-2)`
abbrev pub two_digits : ℕ → JsString
two_digits k = let padded = b'0' ∷ hex k in drop (length padded - 2) padded

unfoldable pub generate_rpc_id : {N X : Type 0} → Session N X → JsString
unfolding hex
generate_rpc_id s = hex s.timestamp ++ (two_digits s.cycle ++ two_digits s.rpc_count)
