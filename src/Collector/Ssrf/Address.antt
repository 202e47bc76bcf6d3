-- ===== src/Collector/Ssrf/Address.antt =====
-- Printed and parsed addresses.
use Prim.Native.Char.{Char, code}
use radar_ia.Prelude.{
  ◌≡◌, ◌<◌, refl, ap, ◌∙◌, ℕ, ◌+◌, ◌-◌, ◌*◌, ◌/◌, ◌%◌, String, Bool, true, false, some, [], ◌∷◌,
  ltb, ◌==◌, arith, if◌then◌else◌, Bool-cases, inl, inr,
}
use radar_ia.Collector.Ssrf.{
  split, is_digit, parse_octet, parse_ipv4_octets, digit, print_octet, with_dot, dotted,
}

code-if : (b : Bool) (x y : Char) → code (if b then x else y) ≡ (if b then code x else code y)
code-if true x y = refl
code-if false x y = refl

code-digit : (n : ℕ) → n < 10 → code (digit n) ≡ 48 + n
code-digit n h =
    let each : code (digit n) ≡ (
        if n == 0
        then 48
        else if n == 1
        then 49
        else if n == 2
        then 50
        else if n == 3
        then 51
        else if n == 4
        then 52
        else if n == 5
        then 53
        else if n == 6
        then 54
        else if n == 7
        then 55
        else if n == 8
        then 56
        else 57) =
      simp code-if in
    ground arith

-- a text without a dot is one part
abbrev Undotted : String → Type 0
Undotted String.[] = Unit
Undotted (String.◌∷◌ c s) = (code c == b'.' ≡ false) × Undotted s

split-Undotted : (s : String) → Undotted s → split b'.' s ≡ s ∷ []
split-Undotted String.[] u = refl
split-Undotted (String.◌∷◌ c s) u = rw u.0 (rw (split-Undotted s u.1) refl)

split-with_dot : (s t : String) → Undotted s → split b'.' (with_dot s t) ≡ s ∷ split b'.' t
split-with_dot String.[] t u = refl
split-with_dot (String.◌∷◌ c s) t u = rw u.0 (rw (split-with_dot s t u.1) refl)

-- digits are no dots
print_octet-Undotted : (n : ℕ) → n < 256 → Undotted (print_octet n)
unfolding print_octet
print_octet-Undotted n h = elim (Bool-cases (ltb n 10)) [
  | inl one ↦ rw one (ground (arith, code-digit n), tt)
  | inr more ↦ elim (Bool-cases (ltb n 100)) [
    | inl two ↦
        rw more
          (rw two (ground (arith, code-digit (n / 10)), (ground (arith, code-digit (n % 10)), tt)))
    | inr three ↦ rw more (
        rw three (
          ground (arith, code-digit (n / 100)),
          (ground (arith, code-digit (n / 10 % 10)), (ground (arith, code-digit (n % 10)), tt)),
        ))
  ]
]

digit-read : (n : ℕ) → n < 10 → (is_digit (code (digit n)) ≡ true) × (code (digit n) - 48 ≡ n)
digit-read n h = rw (code-digit n h) (ground arith, omega arith)

digit-lead : (n : ℕ) → n < 10 → 0 < n → (code (digit n) == 48) ≡ false
digit-lead n h k = rw (code-digit n h) (ground arith)

-- an octet that is printed is parsed to itself
parse_octet-print_octet : (n : ℕ) → n < 256 → parse_octet (print_octet n) ≡ some n
unfolding parse_octet print_octet
parse_octet-print_octet n h = elim (Bool-cases (ltb n 10)) [
  | inl one ↦ let d = digit-read n (ground arith) in rw one (rw d.0 (rw d.1 (ground arith)))
  | inr more ↦ elim (Bool-cases (ltb n 100)) [
    | inl two ↦
        let d = digit-read (n / 10) (ground arith) in
        let e = digit-read (n % 10) (ground arith) in
        rw more (
          rw two (
            rw d.0 (
              rw e.0 (
                rw d.1 (
                  rw e.1 (
                    let v : 10 * (0 + n / 10) + n % 10 ≡ n = omega arith in
                    let lead = digit-lead (n / 10) (ground arith) (ground arith) in
                    let small : ltb 255 n ≡ false = ground arith in
                    rw v (rw small (rw lead refl))))))))
    | inr three ↦
        let d = digit-read (n / 100) (ground arith) in
        let e = digit-read (n / 10 % 10) (ground arith) in
        let f = digit-read (n % 10) (ground arith) in
        rw more (
          rw three (
            rw d.0 (
              rw e.0 (
                rw f.0 (
                  rw d.1 (
                    rw e.1 (
                      rw f.1 (
                        let v : 10 * (10 * (0 + n / 100) + n / 10 % 10) + n % 10 ≡ n =
                          omega arith in
                        let lead = digit-lead (n / 100) (ground arith) (ground arith) in
                        let small : ltb 255 n ≡ false = ground arith in
                        rw v (rw small (rw lead refl))))))))))
  ]
]

-- The text that is made of the last two groups of an IPv6 address is parsed to their four bytes.
pub parse_ipv4_octets-dotted :
    (hi lo : ℕ)
    → parse_ipv4_octets (dotted hi lo)
      ≡ some (hi / 256 % 256 ∷ hi % 256 ∷ lo / 256 % 256 ∷ lo % 256 ∷ [])
unfolding parse_ipv4_octets dotted
parse_ipv4_octets-dotted hi lo = rw (four hi lo) (
    rw (parse_octet-print_octet (hi / 256 % 256) (omega arith)) (
      rw (parse_octet-print_octet (hi % 256) (omega arith)) (
        rw (parse_octet-print_octet (lo / 256 % 256) (omega arith))
          (rw (parse_octet-print_octet (lo % 256) (omega arith)) refl))))
  where
    four :
        (hi lo : ℕ)
        → split b'.' (dotted hi lo)
          ≡ print_octet (hi / 256 % 256)
            ∷ print_octet (hi % 256)
            ∷ print_octet (lo / 256 % 256)
            ∷ print_octet (lo % 256)
            ∷ []
    four hi lo =
        split-with_dot (print_octet (hi / 256 % 256)) _
          (print_octet-Undotted (hi / 256 % 256) (omega arith))
        ∙ ap (λ r. print_octet (hi / 256 % 256) ∷ r)
            (split-with_dot (print_octet (hi % 256)) _
                (print_octet-Undotted (hi % 256) (omega arith))
              ∙ ap (λ r. print_octet (hi % 256) ∷ r)
                  (split-with_dot (print_octet (lo / 256 % 256)) _
                      (print_octet-Undotted (lo / 256 % 256) (omega arith))
                    ∙ ap (λ r. print_octet (lo / 256 % 256) ∷ r)
                        (split-Undotted (print_octet (lo % 256))
                          (print_octet-Undotted (lo % 256) (omega arith)))))
