-- ===== src/Suggest/Quiet.antt =====
-- How long no setup hint, internal/suggest/setup.go, is given after one.
use Prim.Native.String.{String}
use text.Mathlib.Text.{◌==◌ as str_eq}
use text.Mathlib.TextEquality.{eq_iff}
use torana_edge.Prelude.{
  ℕ, ◌+◌, ◌<◌, ◌≡◌, ◌≢◌, inl, inr, ◌∙◌, ap, List, [], ◌∷◌, Option, none, some, Bool-cases,
  Option-cases,
}
use torana_edge.Prelude.Assoc.{lookup}
use torana_edge.Suggest.{Record}
use torana_edge.Suggest.OnStore.{VersionedStore}
use torana_edge.Suggest.HintSteps.{setup_hint-IsStep, setup_hint-cooling, setup_hint-unknown}
use torana_edge.Suggest.Hint.{HintCall}
use torana_edge.Suggest.Setup.{Setup, harness_name, week, end_with, setup_hint}

module _ (format : ℕ → String) (distinct : (i j : ℕ) → format i ≡ format j → i ≡ j)
    (key_of : String → String) (encode : Record → Option String) (decode : String → Option Record)
    (encode_time : ℕ → Option String) (decode_time : String → Option ℕ) where
  abbrev pub hint_all :
      List HintCall → VersionedStore format → Setup → VersionedStore format × Setup
  hint_all [] s setup = (s, setup)
  hint_all (call ∷ calls) s setup =
      let r =
        setup_hint format distinct key_of encode decode encode_time decode_time call s setup in
      hint_all calls r.store r.setup

  abbrev pub AreBefore : ℕ → List HintCall → Type 0
  AreBefore t [] = Unit {0}
  AreBefore t (call ∷ calls) = (call.now < t) × AreBefore t calls

  setup_hint-cooled :
      (call : HintCall) (name : String) (t : ℕ) (s : VersionedStore format) (setup : Setup)
      → lookup name setup.cooldown ≡ some t
      → call.now < t
      → lookup name
          (setup_hint format distinct key_of encode decode encode_time decode_time call s
            setup).setup.cooldown
        ≡ some t
  setup_hint-cooled call name t s setup cooling early =
      elim (Option-cases (harness_name call.source)) [
        | inl unknown ↦
            ap (λ r. lookup name r.setup.cooldown)
              (setup_hint-unknown format distinct key_of encode decode encode_time decode_time call
                s setup unknown)
            ∙ cooling
        | inr (other, known) ↦ elim (Bool-cases (str_eq other name)) [
          | inl same ↦
              let named = known ∙ ap some ((eq_iff other name).0 same) in
              ap (λ r. lookup name r.setup.cooldown)
                (setup_hint-cooling format distinct key_of encode decode encode_time decode_time
                  call name t s setup named cooling early)
              ∙ cooling
          | inr apart ↦
              (setup_hint-IsStep format distinct key_of encode decode encode_time decode_time call
                  other s setup known).others
                name apart
              ∙ cooling
        ]
      ]

  hint_all-cooled :
      (calls : List HintCall) (name : String) (t : ℕ) (s : VersionedStore format) (setup : Setup)
      → lookup name setup.cooldown ≡ some t
      → AreBefore t calls
      → lookup name (hint_all calls s setup).1.cooldown ≡ some t
  hint_all-cooled [] name t s setup cooling early = cooling
  hint_all-cooled (call ∷ calls) name t s setup cooling (first, later) =
      let r =
        setup_hint format distinct key_of encode decode encode_time decode_time call s setup in
      hint_all-cooled calls name t r.store r.setup
        (setup_hint-cooled call name t s setup cooling first) later

  -- After a call that returned a hint, every call for the same harness in the week that follows
  -- returns no hint and no error, and changes nothing, whatever calls stand between them, if these
  -- too are made before the end of that week.
  pub setup_hint-quiet :
      (call again : HintCall) (between : List HintCall) (name : String) (s : VersionedStore format)
      (setup : Setup)
      → harness_name call.source ≡ some name
      → harness_name again.source ≡ some name
      → (setup_hint format distinct key_of encode decode encode_time decode_time call s setup).id
        ≢ ""
      → AreBefore (call.now + week) between
      → again.now < call.now + week
      → setup_hint format distinct key_of encode decode encode_time decode_time again
          (hint_all (call ∷ between) s setup).0
          (hint_all (call ∷ between) s setup).1
        ≡ end_with format distinct key_of encode decode encode_time decode_time again none
            (hint_all (call ∷ between) s setup).0
            (hint_all (call ∷ between) s setup).1
  setup_hint-quiet call again between name s setup known same_name hinted before early =
      let r =
        setup_hint format distinct key_of encode decode encode_time decode_time call s setup in
      let x = hint_all between r.store r.setup in
      elim (setup_hint-IsStep format distinct key_of encode decode encode_time decode_time call name
        s setup known).given [
          | inl nothing ↦ absurd (hinted nothing)
          | inr cooling ↦
              setup_hint-cooling format distinct key_of encode decode encode_time decode_time again
                name (call.now + week) x.0 x.1 same_name
                (hint_all-cooled between name (call.now + week) r.store r.setup cooling before)
                early
        ]
