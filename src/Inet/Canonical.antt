-- ===== src/Inet/Canonical.antt =====
-- inet_pton4 (libuv/src/inet.c) accepts no text but the one that inet_ntop4 prints.
use libuv_analyse.Base.{
  ℕ, ◌≤◌, ◌≡◌, refl, ap, subst, ◌∙◌, inl, inr, Bool, true, false, List, [], ◌∷◌, ◌++◌, append_assoc,
  append-nil, Option-cases, by_if, length, length-append, ltb, arith,
}
use libuv_analyse.Inet.{Written, written, failed, dot, decimal}
use libuv_analyse.Inet.Print.{dotted}
use libuv_analyse.Inet.Parse.{Quad, new_quad, take_byte, pton4_loop, inet_pton4}
use libuv_analyse.Inet.Octets.{
  AllBytes, AllBytes-append, prefix, partial, consumed, IsQuad, Kept, take_byte-Kept,
}

-- `bs` are four bytes, and `s` is the text that inet_ntop4 prints for them.
pub record IsDotted (s bs : List ℕ) : Type 0 where
  pub four : length bs ≡ 4
  pub bytes : AllBytes bs
  pub text : s ≡ dotted bs

Reads : List ℕ → Written → Type 0
Reads s (failed e) = Unit
Reads s (written bs) = IsDotted s bs

prefix_is_dotted :
    (bs : List ℕ) (d : ℕ) → length bs ≡ 3 → prefix bs ++ decimal d ≡ dotted (bs ++ (d ∷ []))
unfolding prefix dotted
prefix_is_dotted [] d e = absurd (omega (arith, e))
prefix_is_dotted (a ∷ []) d e = absurd (omega (arith, e))
prefix_is_dotted (a ∷ b ∷ []) d e = absurd (omega (arith, e))
prefix_is_dotted (a ∷ b ∷ c ∷ []) d e =
    rw
      (
        append_assoc (decimal a) (dot ∷ (decimal b ++ (dot ∷ (decimal c ++ (dot ∷ [])))))
            (decimal d),
        append_assoc (decimal b) (dot ∷ (decimal c ++ (dot ∷ []))) (decimal d),
        append_assoc (decimal c) (dot ∷ []) (decimal d),
      )
      refl
prefix_is_dotted (a ∷ b ∷ c ∷ x ∷ bs) d e = absurd (omega (arith, e))

ends :
    (before : List ℕ) (octet : ℕ) (saw : Bool) (octets : ℕ)
    → IsQuad (record { before = before; octet = octet; saw_digit = saw; octets = octets })
    → 4 ≤ octets
    → IsDotted
        (consumed (record { before = before; octet = octet; saw_digit = saw; octets = octets }))
        (before ++ (octet ∷ []))
unfolding consumed partial AllBytes
ends before octet false octets quad full = absurd (omega (arith, quad.counted, quad.places))
ends before octet true octets quad full =
    let three : length before ≡ 3 = omega (arith, quad.counted, quad.places) in
    record {
      four = omega (arith, length-append before (octet ∷ []));
      bytes = AllBytes-append before (octet ∷ []) quad.bytes (quad.byte, tt);
      text = prefix_is_dotted before octet three;
    }

pton4_loop-Reads : (q : Quad) (s : List ℕ) → IsQuad q → Reads (consumed q ++ s) (pton4_loop q s)
unfolding Kept Reads pton4_loop
pton4_loop-Reads q [] quad = rw (append-nil (consumed q)) (
    by_if (Reads (consumed q)) (ltb q.octets 4) (λ _. tt)
      (λ full. ends q.before q.octet q.saw_digit q.octets quad (ground (arith, full))))
pton4_loop-Reads q (ch ∷ s) quad =
    let kept = take_byte-Kept q ch quad in
    elim (Option-cases (take_byte q ch)) [
      | inl e ↦ rw (pton4_loop, e) tt
      | inr (r, e) ↦
          let good = subst (Kept q ch) e kept in
          rw (pton4_loop, e)
            (subst (λ t. Reads t (pton4_loop r s))
              (ap (λ t. t ++ s) good.1 ∙ append_assoc (consumed q) (ch ∷ []) s)
              (pton4_loop-Reads r s good.0))
    ]

-- Whatever inet_pton4 accepts is four bytes, and the text is the one that inet_ntop4 prints for these: no octet
-- has a 0 in front or is above 255, and nothing stands behind the fourth.
pub inet_pton4-IsDotted : (s bs : List ℕ) → inet_pton4 s ≡ written bs → IsDotted s bs
unfolding inet_pton4 Reads consumed prefix partial AllBytes
inet_pton4-IsDotted s bs accepted = subst (Reads s) accepted (
    pton4_loop-Reads new_quad s (record {
      byte = omega arith;
      fresh = λ _. refl;
      bytes = tt;
      places = omega arith;
      counted = refl;
    }))
