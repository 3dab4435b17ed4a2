-- ===== src/Classic/Resources/Assets.antt =====
-- Asset codes against their format.
use lite_soroban.Prelude.{
  ℕ, zero, suc, ◌+◌, ◌<◌, ◌≡◌, refl, ap, ◌↔◌, Bool, true, false, [], ◌∷◌, ◌++◌, some, arith,
  Bool-cases, Option-cases, inl, inr, ◌==◌, ltb, length, replicate, all,
}
use lite_soroban.Xdr.{Bytes, AccountId, alphanum4, alphanum12}
use lite_soroban.Classic.Resources.{
  is_ascii_alpha_numeric, scan_code, longer_than, trust_line_asset_valid,
}

-- ASCII letters and digits, then zeros only; `chars` counts the former.
pub record IsCode (code : Bytes) (chars : ℕ) : Type 0 where
  pub text : Bytes
  pub padding : ℕ
  pub split : code ≡ text ++ replicate padding 0
  pub alphanumeric : all is_ascii_alpha_numeric text ≡ true
  pub count : chars ≡ length text

scan_code_padding :
    (code : Bytes) (chars found : ℕ)
    → scan_code code true chars ≡ some found
    → (code ≡ replicate (length code) 0) × (found ≡ chars)
unfolding scan_code
scan_code_padding [] chars found e = ground arith
scan_code_padding (b ∷ bs) chars found e = ground (arith, scan_code_padding bs chars found)

scan_code_zeros : (n chars : ℕ) → scan_code (replicate n 0) true chars ≡ some chars
unfolding scan_code
scan_code_zeros zero chars = refl
scan_code_zeros (suc n) chars = scan_code_zeros n chars

scan_code_sound :
    (code : Bytes) (chars found : ℕ)
    → scan_code code false chars ≡ some found
    → (n : ℕ) × IsCode code n × (found ≡ chars + n)
unfolding scan_code
scan_code_sound [] chars found e = (
  0,
  record { text = []; padding = 0; split = refl; alphanumeric = refl; count = refl },
  ground arith,
)
scan_code_sound (b ∷ bs) chars found e = elim (Bool-cases (b == 0)) [
  | inl z ↦
      let (tail, same) = scan_code_padding bs chars found (rw z at e) in
      let zero_byte : b ≡ 0 = ground arith in
      (
        0,
        record {
          text = [];
          padding = suc (length bs);
          split = rw zero_byte (ap (λ (t : Bytes). 0 ∷ t) tail);
          alphanumeric = refl;
          count = refl;
        },
        omega arith,
      )
  | inr nz ↦ elim (Bool-cases (is_ascii_alpha_numeric b)) [
    | inl good ↦
        let (n, c, same) = scan_code_sound bs (chars + 1) found (ground arith) in
        (
          suc n,
          record {
            text = b ∷ c.text;
            padding = c.padding;
            split = ap (λ (t : Bytes). b ∷ t) c.split;
            alphanumeric = rw good c.alphanumeric;
            count = ap suc c.count;
          },
          omega arith,
        )
    | inr bad ↦ absurd (ground arith)
  ]
]

scan_code_complete :
    (text : Bytes) (padding chars : ℕ)
    → all is_ascii_alpha_numeric text ≡ true
    → scan_code (text ++ replicate padding 0) false chars ≡ some (chars + length text)
unfolding scan_code
scan_code_complete [] zero chars h = ap some (omega arith)
scan_code_complete [] (suc n) chars h = ground (arith, scan_code_zeros n chars)
scan_code_complete (b ∷ bs) padding chars h =
    ground (arith, scan_code_complete bs padding (chars + 1))

-- `chars` such characters are more than `least`.
abbrev pub HasCode : Bytes → ℕ → Type 0
HasCode code least = (chars : ℕ) × IsCode code chars × (least < chars)

abbrev accepts : Bytes → ℕ → Bool
accepts code least = longer_than least (scan_code code false 0)

accepts_sound : (code : Bytes) (least : ℕ) → accepts code least ≡ true → HasCode code least
accepts_sound code least e = elim (Option-cases (scan_code code false 0)) [
  | inl bad ↦ absurd (ground arith)
  | inr (found, good) ↦
      let (n, c, same) = scan_code_sound code 0 found good in
      let e' : ltb least found ≡ true = rw good at e in (n, c, ground arith)
]

accepts_complete : (code : Bytes) (least : ℕ) → HasCode code least → accepts code least ≡ true
accepts_complete code least (n, c, h) =
    rw (c.split, scan_code_complete c.text c.padding 0 c.alphanumeric) (ground (arith, c.count))

-- A credit asset's code is valid exactly when it is ASCII letters and digits, zero-padded at the
-- end only: at least one for a short code, at least five for a long one.
pub trust_line_asset_valid_iff :
    (code : Bytes) (issuer : AccountId)
    → ((trust_line_asset_valid (alphanum4 code issuer) ≡ true) ↔ HasCode code 0)
      × ((trust_line_asset_valid (alphanum12 code issuer) ≡ true) ↔ HasCode code 4)
unfolding trust_line_asset_valid
trust_line_asset_valid_iff code issuer = (
  (accepts_sound code 0, accepts_complete code 0),
  (accepts_sound code 4, accepts_complete code 4),
)
