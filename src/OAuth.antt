-- ===== src/OAuth.antt =====
-- packages/oauth/src/server.ts, checks.ts, tokens.ts and crypto.ts: the OAuth authorization server, whose
-- only identity is an address that signs. A request's form is a function from names to values. What
-- the platform gives is the record `Platform`: hashing, `btoa` and `atob`, the text of JSON, the URL
-- class and the recovery of a signer; the clock and the random texts are arguments. The code store is
-- an interface, since it is the host's: its operations may throw, and its contents may expire between two requests. The
-- pages are their status and message. The discovery documents, the reading of a request's body, and the
-- HTML are left out.
pub mod Text
pub mod Base64
pub mod Layout
pub mod Tokens
pub mod Message
pub mod Authorize
pub mod Register
pub mod Bearer
pub mod Exchange
pub mod RoundTrip
pub mod Registered
pub mod Accepted
pub mod Redirects
pub mod Granted
pub mod Earned
pub mod SingleUse
mod Sample
mod Tests
use altscan.Prelude.{ℕ, ◌≡◌, ◌⊎◌, Bool, List, Option, none, some, String}

-- What `new URL(text)` tells.
pub record Url : Type 0 where
  pub protocol : String
  pub hostname : String
  pub host : String
  pub origin : String
  pub username : String
  pub password : String

pub record AccessClaims : Type 0 where
  pub iss : String
  pub aud : String
  pub sub : String
  pub client_id : String
  pub scope : String
  pub iat : ℕ
  pub exp : ℕ
  pub jti : String

-- A field is missing when the JSON has none, or one of another type. A time that is no natural number,
-- which the server never signs, counts as missing.
pub record PartialClaims : Type 0 where
  pub iss : Option String
  pub aud : Option String
  pub sub : Option String
  pub client_id : Option String
  pub scope : Option String
  pub iat : Option ℕ
  pub exp : Option ℕ
  pub jti : Option String

pub record ClientRecord : Type 0 where
  pub redirect_uris : List String
  pub client_name : Option String
  pub iat : ℕ

abbrev pub Bytes : Type 0
Bytes = List ℕ

-- A value of JSON. A number that is no natural one, which the server never signs, is `other_number`.
mutual
  pub data Json : Type 0 where
    null other_number : Json
    boolean : Bool → Json
    number : ℕ → Json
    text : String → Json
    array : Jsons → Json
    object : Fields → Json

  pub data Jsons : Type 0 where
    no_items : Jsons
    items : Json → Jsons → Jsons

  pub data Fields : Type 0 where
    no_fields : Fields
    fields : (name : String) → Json → Fields → Fields

-- A message whose middle is the signer's address.
pub record SignInMessage : Type 0 where
  pub before : String
  pub after : String

-- What a person signs for: the issuer's page, the request and its `requestIdFor`.
pub record SignIn : Type 0 where
  pub host : String
  pub issuer : String
  pub scope_label : String
  pub chain_id : ℕ
  pub client_name : Option String
  pub redirect_uri : String
  pub nonce : String
  pub issued_at : String
  pub request_id : String

pub record Platform : Type 0 where
  -- Each works on the text whose character codes are the bytes; `atob` throws on no base64.
  pub btoa : Bytes → String
  pub atob : String → Option Bytes
  -- `crypto.subtle` with the key of a secret and a purpose.
  pub subtle_sign : (secret purpose text : String) → Bytes
  pub subtle_verify : (secret purpose : String) → Bytes → (text : String) → Bool
  pub sha256 : String → Bytes
  -- `JSON.stringify` to UTF-8 bytes, and `JSON.parse` of them, which may throw.
  pub json_stringify : Json → Bytes
  pub json_parse : Bytes → Option Json
  pub request_json : (client_id redirect_uri code_challenge scope : String) → String
  pub new_url : String → Option Url
  pub to_lower : String → String
  -- `Date.parse`; a date before 1970 counts as none.
  pub date_parse : String → Option ℕ
  -- `verifyMessage` of ethers, which throws on a malformed signature.
  pub verify_message : (message signature : String) → Option String
  -- A number in a template string.
  pub decimal : ℕ → String

pub record CodeGrant : Type 0 where
  pub iss : String
  pub client_id : String
  pub redirect_uri : String
  pub code_challenge : String
  pub scope : String
  pub sub : String

-- A call that throws may have had its effect.
pub data Called (A : Type 0) : Type 0 where
  returned : A → Called A
  thrown : Called A

pub record CodeStore (S : Type 0) : Type 0 where
  pub put : (code : String) → CodeGrant → (ttl_seconds : ℕ) → S → Called Unit × S
  pub take : (code : String) → S → Called (Option CodeGrant) × S
  -- What a code would give, and the passing of time.
  pub held : String → S → Option CodeGrant
  pub elapse : ℕ → S → S
  pub take_returns :
      (code : String) (s : S) (g : Option CodeGrant)
      → (take code s).0 ≡ returned g
      → (g ≡ held code s) × (held code (take code s).1 ≡ none)
  pub take_keeps :
      (code other : String) (s : S) (g : CodeGrant)
      → held other (take code s).1 ≡ some g
      → held other s ≡ some g
  pub put_holds :
      (code other : String) (grant g : CodeGrant) (ttl : ℕ) (s : S)
      → held other (put code grant ttl s).1 ≡ some g
      → ((other ≡ code) × (g ≡ grant)) ⊎ (held other s ≡ some g)
  pub elapse_keeps :
      (ms : ℕ) (other : String) (s : S) (g : CodeGrant)
      → held other (elapse ms s) ≡ some g
      → held other s ≡ some g

pub record OAuthConfig : Type 0 where
  pub issuer : String
  pub secret : String
  pub scope : String
  pub scope_label : String
  pub chain_id : ℕ
  -- `clientCredentials`, and its answer when it is there.
  pub has_client_credentials : Bool
  pub client_credentials : (client_id client_secret : String) → Option String

-- A form field by its name.
abbrev pub Form : Type 0
Form = String → Option String

pub record AuthzRequest : Type 0 where
  pub client : ClientRecord
  pub client_id : String
  pub redirect_uri : String
  pub state : Option String
  pub code_challenge : String
  pub scope : String

-- An answer of the server, `preflight` the one without a request's content. A redirect goes to a URI
-- of the client with an error or a code.
pub data Outcome : Type 0 where
  failed : (error : String) → Outcome
  coded : (code : String) → Outcome

pub data Response : Type 0 where
  error_page : (status : ℕ) (message : String) → Response
  sign_in_page : AuthzRequest → Response
  redirect_back : (redirect_uri : String) → Outcome → (state : Option String) → Response
  json_error : (status : ℕ) (error : String) → Response
  registered : (client_id : String) → ClientRecord → Response
  token : (access_token : String) (expires_in : ℕ) (scope : String) → Response
  preflight : Response

abbrev pub or_empty : Option String → String
or_empty none = ""
or_empty (some s) = s

abbrev pub access_token_ttl_s : ℕ
access_token_ttl_s = 3600

abbrev pub code_ttl_s : ℕ
code_ttl_s = 60

abbrev pub sign_in_window_s : ℕ
sign_in_window_s = 600

abbrev pub max_token_length : ℕ
max_token_length = 4096

abbrev pub max_redirect_uris : ℕ
max_redirect_uris = 4

abbrev pub max_redirect_uri_length : ℕ
max_redirect_uri_length = 512
