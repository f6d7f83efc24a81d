-- ===== src/OAuth/Message.antt =====
-- packages/oauth/src/checks.ts: the text that a person signs, and the name of a client in it.
use Prim.Native.Char.{code}
use Prim.Native.String.{[] as end_of_text, ◌∷◌ as followed_by, ◌++◌ as joined}
use altscan.Prelude.{
  is_space, ℕ, zero, suc, Bool, true, false, not, ◌&&◌, List, [], ◌∷◌, Option, none, some, String,
  leb, ◌==◌, ◌===◌, string_eq, if◌then◌else◌,
}
use altscan.OAuth.Base64.{sha256_b64url}
use altscan.OAuth.{Platform, Url, SignIn, SignInMessage}

-- `replace(/\s+/g, ' ')`, from inside or outside a run of spaces.
unfoldable collapse_spaces : (in_run : Bool) → String → String
collapse_spaces in_run end_of_text = end_of_text
collapse_spaces in_run (followed_by c s) =
    let in_spaces = collapse_spaces true s in
    let in_word = collapse_spaces false s in
    if not (is_space c)
    then followed_by c in_word
    else if in_run
    then in_spaces
    else followed_by " " in_spaces

-- `replace(/[^\x20-\x7E]/g, '')`
unfoldable printable : String → String
printable end_of_text = end_of_text
printable (followed_by c s) =
    let rest = printable s in
    if leb 32 (code c) && leb (code c) 126 then followed_by c rest else rest

-- `trim()` of printable text, at its start and at its end.
unfoldable trim_start : String → String
trim_start end_of_text = end_of_text
trim_start (followed_by c s) =
    let rest = trim_start s in if code c == b' ' then rest else followed_by c s

unfoldable trim_end : String → String
trim_end end_of_text = end_of_text
trim_end (followed_by c s) =
    let rest = trim_end s in
    if rest === "" && code c == b' ' then end_of_text else followed_by c rest

-- `slice(0, n)` of printable text.
unfoldable first_chars : ℕ → String → String
first_chars zero s = end_of_text
first_chars (suc n) end_of_text = end_of_text
first_chars (suc n) (followed_by c s) = followed_by c (first_chars n s)

-- A name that is no string has no value.
unfoldable pub clean_client_name : Option String → Option String
unfolding collapse_spaces printable trim_start trim_end first_chars
clean_client_name none = none
clean_client_name (some name) =
    let s = first_chars 60 (trim_end (trim_start (printable (collapse_spaces false name)))) in
    if s === "" then none else some s

-- `redirectTarget`, whose URI is one that parses.
abbrev pub redirect_target : Option Url → String
redirect_target none = ""
redirect_target (some u) = if u.origin === "null" then u.protocol else u.origin

unfoldable pub concat : List String → String
concat [] = end_of_text
concat (s ∷ texts) = joined s (concat texts)

abbrev who : Option String → String
who none = "An app that gave no name"
who (some name) =
    if name === ""
    then "An app that gave no name"
    else joined "\"" (joined name "\" (a name the app chose itself)")

module _ (w : Platform) where
  unfoldable pub sign_in_message : SignIn → SignInMessage
  unfolding concat
  sign_in_message s = record {
    before = joined s.host " wants you to sign in with your Ethereum account:\n";
    after = concat (
        "\n\n"
        ∷ who s.client_name
        ∷ " may use "
        ∷ s.scope_label
        ∷ " as this address. You return to "
        ∷ redirect_target (w.new_url s.redirect_uri)
        ∷ ".\n\nURI: "
        ∷ s.issuer
        ∷ "/oauth/authorize\nVersion: 1\nChain ID: "
        ∷ w.decimal s.chain_id
        ∷ "\nNonce: "
        ∷ s.nonce
        ∷ "\nIssued At: "
        ∷ s.issued_at
        ∷ "\nRequest ID: "
        ∷ s.request_id
        ∷ []);
  }

  abbrev pub request_id_for : (client_id redirect_uri code_challenge scope : String) → String
  request_id_for client_id redirect_uri code_challenge scope =
      sha256_b64url w (w.request_json client_id redirect_uri code_challenge scope)

  abbrev pub lowered : Option String → Option String
  lowered none = none
  lowered (some s) = some (w.to_lower s)

  abbrev pub signer_of : (message signature : String) → Option String
  signer_of message signature = lowered (w.verify_message message signature)
