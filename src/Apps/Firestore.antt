-- ===== src/Apps/Firestore.antt =====
-- Documents of a Firestore database as the stores of the apps read and write them, and the calls of
-- the Firebase Admin SDK as an interface. A time stands as its text of ISO 8601.
use slc_central_admin_cursor.Prelude.{
  Bool, false, Option, none, some, String, List, [], ◌∷◌, ◌==◌, string_eq, ◌≡◌, Text, Exec,
  if◌then◌else◌,
}
use slc_central_admin_cursor.AppErrors.{truthy}

mutual
  pub data Value : Type 0 where
    null : Value
    boolean : Bool → Value
    number : String → Value
    text : String → Value
    timestamp : String → Value
    map_of : Entries → Value
    list_of : Values → Value

  pub data Values : Type 0 where
    no_values : Values
    value : Value → Values → Values

  pub data Entries : Type 0 where
    no_entries : Entries
    entry : String → Value → Entries → Entries

unfoldable pub field : String → Entries → Option Value
field name no_entries = none
field name (entry n v rest) = let found = field name rest in if n == name then some v else found

-- An update of one field, which adds it where it is missing.
unfoldable pub set_field : String → Value → Entries → Entries
set_field name v no_entries = entry name v no_entries
set_field name v (entry n old rest) =
    let more = set_field name v rest in if n == name then entry n v rest else entry n old more

-- The fields of an update, one after the other.
abbrev pub Changes : Type 0
Changes = List (String × Value)

unfoldable pub set_fields : Changes → Entries → Entries
set_fields [] d = d
set_fields ((name, v) ∷ changes) d = set_fields changes (set_field name v d)

pub record Document : Type 0 where
  pub id : String
  pub data_of : Entries

pub record AuthUser : Type 0 where
  pub uid : String
  pub email : Option String
  pub disabled : Bool

-- The calls of the Firebase Admin SDK, which change a world `W` and throw an `E`. A document is named
-- by its collection and its id.
pub record Firebase (W E : Type 0) : Type 0 where
  pub now : W → String
  pub get : String → String → W → Option Entries
  pub update : String → String → Changes → W → W
  pub delete : String → String → W → W
  -- `where(name, '==', text)` and `where(name, '==', true)`, in the order of the ids; the first also
  -- after an id.
  pub where_text : String → String → String → Option String → W → List Document
  pub where_true : String → String → W → List Document
  pub all_of : String → W → List Document
  -- `orderBy('createdAt', 'desc')`.
  pub newest_of : String → W → List Document
  pub get_users : List String → W → List AuthUser
  pub update_user : String → Bool → Exec W E (Unit {0})
  pub revoke_refresh_tokens : String → Exec W E (Unit {0})
  pub delete_file : Text → Text → Exec W E (Unit {0})

-- What a document is after a call on it or on another one.
pub record IsFirebase {W E : Type 0} (db : Firebase W E) : Type 0 where
  pub get-update :
      (collection id : String) (changes : Changes) (w : W) (d : Entries)
      → db.get collection id w ≡ some d
      → db.get collection id (db.update collection id changes w) ≡ some (set_fields changes d)
  pub get-update_other :
      (collection id other : String) (changes : Changes) (w : W)
      → (other == id) ≡ false
      → db.get collection other (db.update collection id changes w) ≡ db.get collection other w

abbrev pub is_true_value : Option Value → Bool
is_true_value (some (boolean b)) = b
is_true_value _ = false

-- What the stores read from a field: a text, or one that is given and not empty, or a time.
unfoldable pub str : Option Value → String
str (some (text s)) = s
str _ = ""

unfoldable pub str_or_null : Option Value → Option String
str_or_null (some (text s)) = truthy (some s)
str_or_null _ = none

unfoldable pub to_iso : Option Value → Option String
to_iso (some (timestamp s)) = some s
to_iso (some (text s)) = truthy (some s)
to_iso _ = none

unfoldable pub entries_of : Option Value → Entries
entries_of (some (map_of entries)) = entries
entries_of _ = no_entries
