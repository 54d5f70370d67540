-- ===== src/Listener/Parsing.antt =====
-- The address that a server is started with, taken apart.
use gain.Base.{ℕ, ◌≡◌, ◌≢◌, refl, ap, ap₂, ◌∙◌, arith, List, [], ◌∷◌, ◌++◌, map, false, none, some}
use gain.Listener.{
  separator, starts, cut, first_part, before_cut, split_address, parse_proto_addr, to_lower, codes,
}

-- A text with no capital letters.
abbrev pub IsLower : List ℕ → Type 0
IsLower s = map to_lower s ≡ s

abbrev pub NoColon : List ℕ → Type 0
NoColon [] = Unit
NoColon (c ∷ cs) = (c ≢ b':') × NoColon cs

starts-other : (c : ℕ) (cs : List ℕ) → c ≢ b':' → starts (c ∷ cs) ≡ false
starts-other c [] ne = refl
starts-other c (d ∷ []) ne = refl
starts-other c (d ∷ e ∷ rest) ne = ground (arith, ne)

cut-separator :
    (network rest : List ℕ)
    → NoColon network
    → cut (network ++ (separator ++ rest)) ≡ some (network, rest)
unfolding cut
cut-separator [] rest h = refl
cut-separator (c ∷ cs) rest (ne, h) =
    rw (starts-other c (cs ++ (separator ++ rest)) ne) (rw (cut-separator cs rest h) refl)

first_part-whole : (s : List ℕ) → cut s ≡ none → first_part s ≡ s
unfolding first_part
first_part-whole s e = ap (λ o. before_cut o s) e

map-to_lower-append :
    (xs ys : List ℕ) → map to_lower (xs ++ ys) ≡ map to_lower xs ++ map to_lower ys
map-to_lower-append [] ys = refl
map-to_lower-append (x ∷ xs) ys = ap (λ l. to_lower x ∷ l) (map-to_lower-append xs ys)

-- A network without a colon and an address without a separator, both without capital letters, are
-- read back from the text that joins them by the separator.
pub parse_proto_addr-separator :
    (network address : List ℕ)
    → IsLower network
    → IsLower address
    → NoColon network
    → cut address ≡ none
    → parse_proto_addr (network ++ (separator ++ address)) ≡ (network, address)
unfolding parse_proto_addr
parse_proto_addr-separator network address low low' h whole =
    ap (λ a. split_address (cut a) a) lowered
    ∙ ap (λ o. split_address o (network ++ (separator ++ address)))
        (cut-separator network address h)
    ∙ ap (λ x. (network, x)) (first_part-whole address whole)
  where
    lowered : map to_lower (network ++ (separator ++ address)) ≡ network ++ (separator ++ address)
    lowered =
        map-to_lower-append network (separator ++ address)
        ∙ ap₂ (λ x y. x ++ (separator ++ y)) low low'

-- A lower case address with no separator is a TCP address, whole.
pub parse_proto_addr-plain :
    (address : List ℕ)
    → IsLower address
    → cut address ≡ none
    → parse_proto_addr address ≡ (codes "tcp", address)
unfolding parse_proto_addr
parse_proto_addr-plain address low whole =
    ap (λ a. split_address (cut a) a) low ∙ ap (λ o. split_address o address) whole
