-- ===== src/Service/Payment/Signature.antt =====
-- The order of the parameters does not count for a signature.
use axmi_pusher.Base.Keys.{codes}
use axmi_pusher.Base.Assoc.{Assoc, lookup}
use axmi_pusher.Base.{
  ◌∙◌, some, none, ap, ◌≢◌, ◌++◌, nat_beq_iff, refl, [], ◌∷◌, arith, false, true, ◌≡◌, List, Text,
  text_eq, nat_eq,
}
use axmi_pusher.Service.Payment.{
  codes, joined, signed_keys, param, sign_params, lookup, sort_texts, Assoc, text_leb, insert_text,
}

text_leb_total : (s t : Text) → text_leb s t ≡ false → text_leb t s ≡ true
unfolding text_leb
text_leb_total [] t h = cc
text_leb_total (c ∷ s) [] h = refl
text_leb_total (c ∷ s) (d ∷ t) h = ground (arith, text_leb_total s t)

text_leb_antisym : (s t : Text) → text_leb s t ≡ true → text_leb t s ≡ true → s ≡ t
unfolding text_leb
text_leb_antisym [] [] h k = refl
text_leb_antisym [] (d ∷ t) h k = cc
text_leb_antisym (c ∷ s) [] h k = cc
text_leb_antisym (c ∷ s) (d ∷ t) h k = ground (arith, text_leb_antisym s t, nat_beq_iff c d)

text_leb_trans : (s t u : Text) → text_leb s t ≡ true → text_leb t u ≡ true → text_leb s u ≡ true
unfolding text_leb
text_leb_trans [] t u h k = refl
text_leb_trans (c ∷ s) [] u h k = cc
text_leb_trans (c ∷ s) (d ∷ t) [] h k = cc
text_leb_trans (c ∷ s) (d ∷ t) (e ∷ u) h k = ground (arith, text_leb_trans s t u)

insert_swap :
    (a b : Text) (ks : List Text)
    → insert_text a (insert_text b ks) ≡ insert_text b (insert_text a ks)
unfolding insert_text
insert_swap a b [] = ground (arith, text_leb_total a b, text_leb_antisym a b)
insert_swap a b (j ∷ ks) = ground (
  arith,
  insert_swap a b ks,
  text_leb_total a b,
  text_leb_antisym a b,
  text_leb_total a j,
  text_leb_total b j,
  text_leb_trans a b j,
  text_leb_trans b a j,
)

-- Two entries of a map next to each other.
abbrev Entry : Type 0
Entry = Text × Text

abbrev swapped : List Entry → Entry → Entry → List Entry → List Entry
swapped front p q back = front ++ (p ∷ q ∷ back)

lookup-swapped :
    (k : Text) (front back : List Entry) (p q : Entry)
    → p.0 ≢ q.0
    → lookup k (swapped front p q back) ≡ lookup k (swapped front q p back)
unfolding lookup
lookup-swapped k [] back (a, v) (b, w) differ =
    ground (arith, text_eq.beq_iff a k, text_eq.beq_iff b k)
lookup-swapped k ((j, u) ∷ front) back p q differ =
    ground (arith, lookup-swapped k front back p q differ)

keys-swapped :
    (params : Assoc Text Text) (front back : List Entry) (p q : Entry)
    → sort_texts (signed_keys params (swapped front p q back))
      ≡ sort_texts (signed_keys params (swapped front q p back))
unfolding sort_texts signed_keys
keys-swapped params [] back (a, v) (b, w) =
    ground (arith, insert_swap a b (sort_texts (signed_keys params back)))
keys-swapped params ((j, u) ∷ front) back p q = ground (arith, keys-swapped params front back p q)

module _ (params params' : Assoc Text Text)
    (same : (k : Text) → param k params ≡ param k params') where
  signed_keys-same :
      (entries : List Entry) → signed_keys params entries ≡ signed_keys params' entries
  unfolding signed_keys
  signed_keys-same [] = refl
  signed_keys-same ((k, v) ∷ rest) = rw (same k, signed_keys-same rest) refl

  joined-same : (ks : List Text) → joined params ks ≡ joined params' ks
  unfolding joined
  joined-same [] = refl
  joined-same (k ∷ ks) = rw (same k, joined-same ks) refl

-- Two neighbours with different keys, anywhere in the entries of a map, may change places: the
-- signature is the same, so it does not depend on the order in which Go goes through the map.
pub signature_ignores_order :
    (md5 : Text → Text) (key : Text) (front back : List (Text × Text)) (p q : Text × Text)
    → p.0 ≢ q.0
    → sign_params md5 (front ++ (p ∷ q ∷ back)) key ≡ sign_params md5 (front ++ (q ∷ p ∷ back)) key
unfolding sign_params param
signature_ignores_order md5 key front back p q differ =
    ap (λ t. md5 (t ++ (codes "key=" ++ key)))
      (joined-same before after same (sort_texts (signed_keys before before))
        ∙ ap (joined after) (
            ap sort_texts (signed_keys-same before after same before)
            ∙ keys-swapped after front back p q))
  where
    before : Assoc Text Text
    before = front ++ (p ∷ q ∷ back)

    after : Assoc Text Text
    after = front ++ (q ∷ p ∷ back)

    same : (k : Text) → param k before ≡ param k after
    same k = ap (λ o. elim o [ none ↦ [] | some v ↦ v ]) (lookup-swapped k front back p q differ)
