-- ===== src/OAuth/Layout.antt =====
-- packages/oauth/src/tokens.ts: the JSON that a token and a client id carry, and what is read from it.
use altscan.Prelude.{
  ℕ, ◌≡◌, refl, List, [], ◌∷◌, Option, none, some, String, ◌===◌, string_eq, if◌then◌else◌,
}
use altscan.OAuth.{
  Json, Jsons, Fields, null, number, text, array, object, no_items, items, no_fields, fields,
  AccessClaims, PartialClaims, ClientRecord,
}

infixl 5 ◌>>=◌
abbrev pub ◌>>=◌ {ℓ κ} : {A : Type ℓ} {B : Type κ} → Option A → (A → Option B) → Option B
none >>= f = none
some a >>= f = f a

-- `typeof v === 'string'` and `typeof v === 'number'`.
abbrev pub text_of : Option Json → Option String
text_of (some (text s)) = some s
text_of _ = none

abbrev pub number_of : Option Json → Option ℕ
number_of (some (number n)) = some n
number_of _ = none

-- A property of a parsed object, whose later field of a name wins.
unfoldable pub field : String → Fields → Option Json
field name no_fields = none
field name (fields n v rest) = elim (field name rest) [
  | some later ↦ some later
  | none ↦ if n === name then some v else none
]

-- `{ alg: 'HS256', typ: 'at+jwt' }`
abbrev pub header_json : Json
header_json = object (fields "alg" (text "HS256") (fields "typ" (text "at+jwt") no_fields))

abbrev pub claims_json : AccessClaims → Json
claims_json c = object (
    fields "iss" (text c.iss) (
      fields "aud" (text c.aud) (
        fields "sub" (text c.sub) (
          fields "client_id" (text c.client_id) (
            fields "scope" (text c.scope) (
              fields "iat" (number c.iat)
                (fields "exp" (number c.exp) (fields "jti" (text c.jti) no_fields))))))))

abbrev claims_of_fields : Fields → PartialClaims
claims_of_fields o = record {
  iss = text_of (field "iss" o);
  aud = text_of (field "aud" o);
  sub = text_of (field "sub" o);
  client_id = text_of (field "client_id" o);
  scope = text_of (field "scope" o);
  iat = number_of (field "iat" o);
  exp = number_of (field "exp" o);
  jti = text_of (field "jti" o);
}

-- An array is an object too, with none of the fields.
unfoldable pub partial_claims : Json → Option PartialClaims
unfolding field
partial_claims (object o) = some (claims_of_fields o)
partial_claims (array vs) = some (claims_of_fields no_fields)
partial_claims _ = none

unfoldable pub text_items : List String → Jsons
text_items [] = no_items
text_items (s ∷ texts) = items (text s) (text_items texts)

abbrev pub or_null : Option String → Json
or_null none = null
or_null (some s) = text s

-- `[rec.redirect_uris, rec.client_name, rec.iat, random]`
abbrev pub client_json : ClientRecord → (random : String) → Json
client_json rec random = array (
    items (array (text_items rec.redirect_uris))
      (items (or_null rec.client_name) (items (number rec.iat) (items (text random) no_items))))

-- `uris.every((u) => typeof u === 'string')`
unfoldable pub texts_of : Jsons → Option (List String)
texts_of no_items = some []
texts_of (items v vs) = do s ← text_of (some v); texts ← texts_of vs; some (s ∷ texts)

abbrev uris_of : Json → Option (List String)
uris_of (array vs) = texts_of vs
uris_of _ = none

abbrev name_of : Json → Option (Option String)
name_of null = some none
name_of (text s) = some (some s)
name_of _ = none

-- An array of exactly four values, the last of any type.
unfoldable pub client_of : Json → Option ClientRecord
unfolding texts_of
client_of (array (items uris (items name (items iat (items random no_items))))) = do
  redirect_uris ← uris_of uris
  client_name ← name_of name
  at ← number_of (some iat)
  some (record { redirect_uris = redirect_uris; client_name = client_name; iat = at })
client_of _ = none

-- The claims with every field there.
abbrev pub as_partial : AccessClaims → PartialClaims
as_partial c = record {
  iss = some c.iss;
  aud = some c.aud;
  sub = some c.sub;
  client_id = some c.client_id;
  scope = some c.scope;
  iat = some c.iat;
  exp = some c.exp;
  jti = some c.jti;
}

pub partial_claims-json : (c : AccessClaims) → partial_claims (claims_json c) ≡ some (as_partial c)
unfolding partial_claims field
partial_claims-json c = refl

texts_of-items : (texts : List String) → texts_of (text_items texts) ≡ some texts
unfolding texts_of text_items
texts_of-items [] = refl
texts_of-items (s ∷ texts) = rw (texts_of-items texts)

name_of-or_null : (o : Option String) → name_of (or_null o) ≡ some o
name_of-or_null none = refl
name_of-or_null (some s) = refl

pub client_of-json :
    (rec : ClientRecord) (random : String) → client_of (client_json rec random) ≡ some rec
unfolding client_of
client_of-json rec random = rw (texts_of-items rec.redirect_uris, name_of-or_null rec.client_name)
