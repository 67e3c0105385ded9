-- ===== src/CredHelper.antt =====
-- api/crocker.go: the key in the credential helper of the system. The package crocker is not
-- modelled: its calls on a state of the helpers are the parameter `Crocker`.
use pmb.Base.{String, ◌≡◌, Option, none, some}

-- A secret or the text of an error.
pub data Answer : Type 0 where
  secret : String → Answer
  refused : String → Answer

-- `finds` is the error of NewWithStrategy; a call that fails gives its error.
pub record Crocker (S : Type 0) : Type 0 where
  pub finds : S → Option String
  pub get : S → String → Answer
  pub put : S → String → String → S × Option String
  pub erase : S → String → S × Option String

-- What the helpers document: a secret that was stored is found again, and a store that fails changes
-- nothing.
pub record IsCrocker {S : Type 0} (c : Crocker S) : Type 0 where
  pub stored :
      (s s' : S) (url key : String)
      → c.put s url key ≡ (s', none)
      → (c.finds s' ≡ none) × (c.get s' url ≡ secret key)
  pub unstored : (s s' : S) (url key e : String) → c.put s url key ≡ (s', some e) → s' ≡ s

abbrev pub url : String
url = "http://pmb.io"

module _ {S : Type 0} (c : Crocker S) where
  -- GetCredHelperKey
  unfoldable pub get_cred_helper_key : S → Answer
  get_cred_helper_key s = elim (c.finds s) [ some e ↦ refused e | none ↦ c.get s url ]

  -- StoreCredHelperKey
  unfoldable pub store_cred_helper_key : S → String → S × Option String
  store_cred_helper_key s keys = elim (c.finds s) [ some e ↦ (s, some e) | none ↦ c.put s url keys ]

  -- ClearCredHelperKey
  unfoldable pub clear_cred_helper_key : S → S × Option String
  clear_cred_helper_key s = elim (c.finds s) [ some e ↦ (s, some e) | none ↦ c.erase s url ]

-- `key, _ := GetCredHelperKey()`: an error gives the empty text.
abbrev pub secret_of : Answer → String
secret_of (secret key) = key
secret_of (refused e) = ""
