-- ===== src/Secrets.antt =====
-- `contains_probable_secret` of memory_service.py.
use agent_ui.Prelude.{
  ℕ, String, Bool, true, false, ◌&&◌, ◌||◌, not, List, [], ◌∷◌, ◌++◌, any, nat_beq, leb, ◌≡◌, refl,
}
use agent_ui.Prelude.Text.{is_space}
use agent_ui.Regex.{
  Item, one, many, alt, boundary, found_in, at_least, exactly, texts, exact, ignore_case,
}

abbrev is_digit : ℕ → Bool
is_digit c = leb b'0' c && leb c b'9'

abbrev is_upper : ℕ → Bool
is_upper c = leb b'A' c && leb c b'Z'

abbrev is_token_char : ℕ → Bool
is_token_char c =
    is_upper c || leb b'a' c && leb c b'z' || is_digit c || nat_beq c b'_' || nat_beq c b'-'

abbrev private_key_block : List Item
private_key_block =
    alt ignore_case (texts ("-----BEGIN " ∷ []))
    ∷ alt ignore_case (texts ("RSA " ∷ "EC " ∷ "OPENSSH " ∷ "" ∷ []))
    ∷ alt ignore_case (texts ("PRIVATE KEY-----" ∷ []))
    ∷ []

abbrev access_token : (ℕ → Bool) → List Item
access_token word =
    boundary word
    ∷ alt exact (texts ("sk" ∷ "ghp" ∷ "github_pat" ∷ []))
    ∷ alt exact (texts ("_" ∷ []))
    ∷ (at_least 16 is_token_char ++ boundary word ∷ [])

abbrev assignment : (ℕ → Bool) → List Item
assignment word =
    boundary word
    ∷ alt ignore_case (
        texts ("api_key" ∷ "api key" ∷ "api-key" ∷ "apikey" ∷ "password" ∷ "secret" ∷ "token" ∷ []))
    ∷ many is_space
    ∷ alt exact (texts (":" ∷ "=" ∷ []))
    ∷ many is_space
    ∷ one (λ c. not (is_space c))
    ∷ []

abbrev aws_key : (ℕ → Bool) → List Item
aws_key word =
    boundary word
    ∷ alt exact (texts ("AKIA" ∷ []))
    ∷ (exactly 16 (λ c. is_digit c || is_upper c) ++ boundary word ∷ [])

-- `word` is the class `\w`.
unfoldable pub contains_probable_secret : (ℕ → Bool) → String → Bool
unfolding found_in any
contains_probable_secret word content =
    any (λ pattern. found_in pattern content)
      (private_key_block ∷ access_token word ∷ assignment word ∷ aws_key word ∷ [])

abbrev ascii_word : ℕ → Bool
ascii_word c = is_upper c || leb b'a' c && leb c b'z' || is_digit c || nat_beq c b'_'

secret_runs :
    (contains_probable_secret ascii_word "my Password : hunter2" ≡ true)
    × (contains_probable_secret ascii_word "the token is lost" ≡ false)
    × (contains_probable_secret ascii_word "id AKIA0123456789ABCDEF." ≡ true)
    × (contains_probable_secret ascii_word "id AKIA0123456789ABCDEFG" ≡ false)
    × (contains_probable_secret ascii_word "ghp_0123456789abcdefgh" ≡ true)
    × (contains_probable_secret ascii_word "-----BEGIN private KEY-----" ≡ true)
unfolding contains_probable_secret is_space
secret_runs = (refl, refl, refl, refl, refl, refl)
