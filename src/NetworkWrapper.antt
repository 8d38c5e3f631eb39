-- ===== src/NetworkWrapper.antt =====
-- flmodules/src/overlay/messages.rs: a message of one module, with the module's name. The text is
-- written and read by `serde_yaml`, which is a parameter of the functions that use it.
use fledger.Prelude.{
  String, Option, none, some, ◌≡◌, arith, Option-cases, inl, inr, if◌then◌else◌, false, subst,
}
use text.Mathlib.Text.{◌==◌}

pub record NetworkWrapper : Type 0 where
  pub module_name : String
  pub msg : String

-- `to_string` and `from_str` of `serde_yaml` at one message type; `none` is an error of the crate.
pub record Yaml {ℓ} (A : Type ℓ) : Type ℓ where
  pub to_string : A → Option String
  pub from_str : String → Option A

-- What the code relies on: a text that was written is read back as the message that it was.
pub record RoundTrips {ℓ} {A : Type ℓ} (y : Yaml A) : Type ℓ where
  pub from_str-to_string :
      (a : A) (text : String) → y.to_string a ≡ some text → y.from_str text ≡ some a

-- What a link between two brokers makes of a message: another one, nothing, or a panic of `unwrap`.
pub data Linked {ℓ} (A : Type ℓ) : Type ℓ where
  linked : A → Linked A
  ignored : Linked A
  panicked : Linked A

module _ {ℓ} {A : Type ℓ} (y : Yaml A) where
  unfoldable pub wrap_yaml : String → A → Option NetworkWrapper
  wrap_yaml name a = elim (y.to_string a) [
    | none ↦ none
    | some text ↦ some (record { module_name = name; msg = text })
  ]

  unfoldable pub unwrap_yaml : NetworkWrapper → String → Option A
  unwrap_yaml w name = if w.module_name == name then y.from_str w.msg else none

  -- Where YAML that was written is read back, what is wrapped for one module is unwrapped by that
  -- module, and by no other.
  pub unwrap_yaml-wrap_yaml :
      RoundTrips y
      → (name other : String) (a : A) (w : NetworkWrapper) → wrap_yaml name a ≡ some w
      → unwrap_yaml w other ≡ (if name == other then some a else none)
  unfolding wrap_yaml unwrap_yaml
  unwrap_yaml-wrap_yaml trips name other a w wrapped = elim (Option-cases (y.to_string a)) [
    | inl e ↦ ground arith
    | inr (text, e) ↦ ground (arith, trips.from_str-to_string a text e)
  ]

-- What is wrapped for one module is not read as a message of another, whatever the text holds.
pub unwrap_yaml-wrap_yaml_other {ℓ κ} :
    {A : Type ℓ} {B : Type κ} (y : Yaml A) (z : Yaml B) (name other : String) (a : A)
    (w : NetworkWrapper)
    → wrap_yaml y name a ≡ some w
    → (name == other) ≡ false
    → unwrap_yaml z w other ≡ none
unfolding wrap_yaml unwrap_yaml
unwrap_yaml-wrap_yaml_other y z name other a w wrapped different =
    elim (Option-cases (y.to_string a)) [
      | inl e ↦ absurd (ground (arith, e, wrapped))
      | inr (text, e) ↦
          let named : name ≡ w.module_name = ground (arith, e, wrapped) in
          let test : (w.module_name == other) ≡ false =
            subst (λ n. (n == other) ≡ false) named different in
          ground (arith, test)
    ]
