-- ===== src/Terminal.antt =====
-- The terminal: the commands of src/interface.c, and the name that src/main.c asks for.
use s6_projet_reseau.Common.{
  ℕ, zero, suc, ◌+◌, ◌-◌, ◌≡◌, ◌≢◌, refl, ap, ◌∙◌, arith, Bool, true, false, List, [], ◌∷◌, ◌++◌,
  ◌==◌, ◌&&◌, ltb, leb, length, take, replicate, if◌then◌else◌, length-append, take_all, inl, inr,
  Bool-cases,
}
use s6_projet_reseau.Shared.{new_client_name}
use s6_projet_reseau.Common.Run.{Run, ok, fault, guard, ◌>>=◌}

-- snprintf of a text into an object of `size` bytes, with the bound `n`: the string with its zero.
unfoldable pub snprintf : ℕ → ℕ → List ℕ → Run (List ℕ)
snprintf size n text =
    if n == 0
    then ok []
    else do let out = take (n - 1) text; _ ← guard (leb (length out + 1) size); ok (out ++ (0 ∷ []))

abbrev pub is_quit : List ℕ → Bool
is_quit (a ∷ b ∷ rest) = (a == b'/') && (b == b'q')
is_quit _ = false

-- The object for the name and the text has the size of the text alone.
unfoldable pub process_input : List ℕ → List ℕ → Run ℕ
process_input client_name input =
    if length input == 0 then ok 1 else if is_quit input then ok 0 else (do
      let size = length input + 2 + length client_name
      s ← snprintf (length input) size (client_name ++ (b':' ∷ input))
      ok 1)

-- The lines that readline gives; there is none at the end of the input, which strlen reads through
-- null. The result is the lines that are not read.
unfoldable pub listen_input : List ℕ → List (List ℕ) → Run (List (List ℕ))
listen_input client_name [] = fault
listen_input client_name (line ∷ lines) = do
  status ← process_input client_name line
  if status == 0 then ok lines else listen_input client_name lines

-- The loop of main: a name of 1 to 1022 bytes is taken.
unfoldable pub read_alias : List ℕ → List (List ℕ) → Run (List ℕ)
read_alias old [] = fault
read_alias old (line ∷ lines) =
    let again = read_alias old lines in
    if ltb 0 (length line) && ltb (length line) 1023
    then ok (new_client_name old line (length line))
    else again

process_input-overflow :
    (client_name input : List ℕ)
    → (length input == 0) ≡ false
    → is_quit input ≡ false
    → process_input client_name input ≡ fault
unfolding process_input snprintf
process_input-overflow client_name input ne more =
    let total : length (client_name ++ (b':' ∷ input)) ≡ length client_name + (1 + length input) =
      length-append client_name (b':' ∷ input) ∙ omega arith in
    let full : length
          (take (length input + 2 + length client_name - 1) (client_name ++ (b':' ∷ input)))
        ≡ length client_name + 1 + length input =
      ap length (
        take_all (length input + 2 + length client_name - 1) (client_name ++ (b':' ∷ input))
          (omega (arith, total)))
      ∙ total
      ∙ omega arith in
    let size : ((length input + 2 + length client_name) == 0) ≡ false = ground arith in
    let over : leb (length client_name + 1 + length input + 1) (length input) ≡ false =
      ground arith in
    rw (ne, more, size, full, over) refl

process_input-quit :
    (client_name input : List ℕ)
    → (length input == 0) ≡ false
    → is_quit input ≡ true
    → process_input client_name input ≡ ok 0
unfolding process_input
process_input-quit client_name input ne quit = rw (ne, quit) refl

listen_input-first :
    (client_name line : List ℕ) (lines : List (List ℕ))
    → (length line == 0) ≡ false
    → listen_input client_name (line ∷ lines) ≡ (if is_quit line then ok lines else fault)
unfolding listen_input
listen_input-first client_name line lines ne = elim (Bool-cases (is_quit line)) [
  | inl quit ↦ rw (process_input-quit client_name line ne quit, quit) refl
  | inr more ↦ rw (process_input-overflow client_name line ne more, more) refl
]

-- listen_input on any number of empty lines and then one that is not: it returns if that line begins
-- with "/q", and the later lines are not read. Any other line makes it write behind an object.
pub listen_input-line :
    (client_name : List ℕ) (n : ℕ) (line : List ℕ) (lines : List (List ℕ))
    → line ≢ []
    → listen_input client_name (replicate n [] ++ (line ∷ lines))
      ≡ (if is_quit line then ok lines else fault)
unfolding listen_input process_input
listen_input-line client_name (suc n) line lines ne = listen_input-line client_name n line lines ne
listen_input-line client_name zero [] lines ne = absurd (ne refl)
listen_input-line client_name zero (c ∷ line) lines ne =
    listen_input-first client_name (c ∷ line) lines (ground arith)
