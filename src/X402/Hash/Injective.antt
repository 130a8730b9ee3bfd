-- ===== src/X402/Hash/Injective.antt =====
-- The hash of a request tells requests apart.
use relaykey_backend.Base.{◌≡◌, refl, ◌++◌, ◌∷◌, [], false, arith}
use relaykey_backend.Text.{Text, contains}
use relaykey_backend.Http.{Method}
use relaykey_backend.X402.Hash.{method_text, newline, hash_input, compute_request_hash}

-- What stands before the first line break, and what behind it.
first_line :
    (a b x y : Text)
    → contains 10 a ≡ false
    → contains 10 b ≡ false
    → a ++ (newline ++ x) ≡ b ++ (newline ++ y)
    → (a ≡ b) × (x ≡ y)
unfolding contains
first_line [] [] x y h k e = (refl, cc)
first_line [] (d ∷ b) x y h k e = absurd (ground arith)
first_line (c ∷ a) [] x y h k e = absurd (ground arith)
first_line (c ∷ a) (d ∷ b) x y h k e =
    let same : c ≡ d = cc in
    let rest : a ++ (newline ++ x) ≡ b ++ (newline ++ y) = cc in
    let (left, right) = first_line a b x y (ground arith) (ground arith) rest in (cc, right)

-- Where the digest does not collide on the two inputs, two requests with the same hash have the
-- same method text, path with query, and body, if no method and no path holds a line break.
pub compute_request_hash_injective :
    (digest : Text → Text) (m n : Method) (p q b c : Text)
    → (digest (hash_input m p b) ≡ digest (hash_input n q c) → hash_input m p b ≡ hash_input n q c)
    → contains 10 (method_text m) ≡ false
    → contains 10 (method_text n) ≡ false
    → contains 10 p ≡ false
    → contains 10 q ≡ false
    → compute_request_hash digest m p b ≡ compute_request_hash digest n q c
    → (method_text m ≡ method_text n) × (p ≡ q) × (b ≡ c)
unfolding compute_request_hash hash_input
compute_request_hash_injective digest m n p q b c collision_free hm hn hp hq e =
    let (methods, rest) =
      first_line (method_text m) (method_text n) (p ++ (newline ++ b)) (q ++ (newline ++ c)) hm hn
        (collision_free e) in
    let (paths, bodies) = first_line p q b c hp hq rest in (methods, paths, bodies)
