-- ===== src/Util/Alpha.antt =====
-- AlphaTableEncode and AlphaTableDecode of util/util.go, on the code points of a text.
use real_api_server.Prelude.{
  ℕ, zero, suc, ◌+◌, ◌-◌, ◌<◌, ◌≡◌, refl, ap, ◌∙◌, Bool, ◌&&◌, ◌||◌, none, some, List, [], ◌∷◌,
  ◌++◌, map, arith, leb, ◌==◌, nat_eq, if◌then◌else◌, get_elem?,
}

-- alphaTable
abbrev pub alpha_table : List ℕ
alpha_table = b's' ∷ b't' ∷ b'u' ∷ b'p' ∷ b'i' ∷ b'd' ∷ b'l' ∷ b'w' ∷ b'm' ∷ b'a' ∷ b'k' ∷ b'e' ∷ []

abbrev pub is_digit : ℕ → Bool
is_digit c = leb b'0' c && leb c b'9'

-- the `switch` of AlphaTableEncode; strconv.Atoi of a text that is no digit gives 0
pub index_of : ℕ → ℕ
index_of c = if c == b'.' then 10 else if c == b'_' then 11 else if is_digit c then c - b'0' else 0

-- alphaTable[index], which exists
pub letter_of : ℕ → ℕ
letter_of i = elim (get_elem? alpha_table i) [ none ↦ 0 | some a ↦ a ]

pub alpha_table_encode : List ℕ → List ℕ
unfolding index_of letter_of
alpha_table_encode [] = []
alpha_table_encode (c ∷ text) = letter_of (index_of c) ∷ alpha_table_encode text

-- the text that init enters for the letter at index i
abbrev pub text_of : ℕ → List ℕ
text_of i = (if i == 10 then b'.' else if i == 11 then b'_' else b'0' + i) ∷ []

-- alphaTableDecodeMap[c], empty for another letter
pub decode_from : ℕ → List ℕ → ℕ → List ℕ
decode_from i [] c = []
decode_from i (a ∷ table) c =
    let rest = decode_from (i + 1) table c in if a == c then text_of i else rest

pub alpha_table_decode : List ℕ → List ℕ
unfolding decode_from
alpha_table_decode [] = []
alpha_table_decode (c ∷ cipher) = decode_from 0 alpha_table c ++ alpha_table_decode cipher

-- A character that the table can tell: a digit, a point or an underscore; any other counts as "0".
abbrev pub told : ℕ → ℕ
told c = if c == b'.' || (c == b'_' || is_digit c) then c else b'0'

index_of-lt : (c : ℕ) → index_of c < 12
unfolding index_of
index_of-lt c = ground arith

decode_letter : (i : ℕ) → i < 12 → decode_from 0 alpha_table (letter_of i) ≡ text_of i
unfolding decode_from letter_of
decode_letter zero h = refl
decode_letter (suc zero) h = refl
decode_letter (suc (suc zero)) h = refl
decode_letter (suc (suc (suc zero))) h = refl
decode_letter (suc (suc (suc (suc zero)))) h = refl
decode_letter (suc (suc (suc (suc (suc zero))))) h = refl
decode_letter (suc (suc (suc (suc (suc (suc zero)))))) h = refl
decode_letter (suc (suc (suc (suc (suc (suc (suc zero))))))) h = refl
decode_letter (suc (suc (suc (suc (suc (suc (suc (suc zero)))))))) h = refl
decode_letter (suc (suc (suc (suc (suc (suc (suc (suc (suc zero))))))))) h = refl
decode_letter (suc (suc (suc (suc (suc (suc (suc (suc (suc (suc zero)))))))))) h = refl
decode_letter (suc (suc (suc (suc (suc (suc (suc (suc (suc (suc (suc zero))))))))))) h = refl
decode_letter (suc (suc (suc (suc (suc (suc (suc (suc (suc (suc (suc (suc i)))))))))))) h =
    absurd (omega arith)

text_of-index_of : (c : ℕ) → text_of (index_of c) ≡ told c ∷ []
unfolding index_of
text_of-index_of c = ground arith

-- Decoding what has been encoded gives the text back, with every character that is no digit, point
-- or underscore replaced by "0".
pub alpha_table_decode-encode :
    (text : List ℕ) → alpha_table_decode (alpha_table_encode text) ≡ map told text
unfolding alpha_table_decode alpha_table_encode
alpha_table_decode-encode [] = refl
alpha_table_decode-encode (c ∷ text) =
    let e = decode_letter (index_of c) (index_of-lt c) ∙ text_of-index_of c in
    ap (λ h. h ++ alpha_table_decode (alpha_table_encode text)) e
    ∙ ap (◌∷◌ (told c)) (alpha_table_decode-encode text)
