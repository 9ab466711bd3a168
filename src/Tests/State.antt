-- ===== src/Tests/State.antt =====
-- The state file: two panes are saved by one manager and loaded by another.
use shimux.Base.{
  subst, ap, Result, err, Bytes, str, equal, message, ok, ◌≡◌, refl, ◌≢◌, none, some, [], ◌∷◌,
}
use shimux.Base.Maps.{lookup}
use shimux.Pane.{Manager, new_manager}
use shimux.Pane.Refines.{Represents}
use shimux.Pane.State.{Json, Files, Answers, save, load, state_of}
use shimux.Pane.State.Saved.{AllOrNothing, save-IsAtomic, load-save}
use shimux.Tests.World.{no_manager}
use shimux.Tests.Panes.{two_panes, two, two-Represents}

abbrev document : Bytes
document = str "{\"panes\": [], \"next_id\": 2}"

-- A writer and a reader that know one document.
abbrev json : Json
json = record { marshal = λ s. ok document; unmarshal = λ b. ok (state_of two_panes) }

abbrev answers : Answers
answers = record {
  temp = ok (str "panes-1.json.tmp");
  write = none;
  close = none;
  rename = none;
  read = none;
}

-- The disk is full after three bytes.
abbrev full : Answers
full = record answers { write = some (3, message (str "no space left on device")) }

abbrev files : Files
files = (str "panes.json", str "{}") ∷ (str "notes", str "x") ∷ []

abbrev name_of : Bytes → Result Bytes → Bytes
name_of other (ok name) = name
name_of other (err e) = other

no_temp : lookup (str "panes-1.json.tmp") files ≡ none
unfolding lookup equal
no_temp = refl

other_name : str "panes-1.json.tmp" ≢ str "panes.json"
other_name e = cc

new_name : (tmp : Bytes) → full.temp ≡ ok tmp → (lookup tmp files ≡ none) × (tmp ≢ str "panes.json")
new_name tmp e =
    subst (λ t. (lookup t files ≡ none) × (t ≢ str "panes.json")) (ap (name_of []) e)
      (no_temp, other_name)

save-IsAtomic_example :
    AllOrNothing
      (str "panes.json")
      (ok document)
      files
      (save json full two_panes files).0
      (save json full two_panes files).1
unfolding shimux.Pane.register
save-IsAtomic_example = save-IsAtomic json full two_panes files new_name

saved : (save json answers two_panes files).0 ≡ none
unfolding save
saved = refl

load-save_example :
    (m : Manager) × (load json answers no_manager (save json answers two_panes files).1 ≡ ok m)
    × Represents m two
unfolding shimux.Pane.register
load-save_example =
    load-save json answers answers no_manager files (str "panes-1.json.tmp") document two-Represents
      refl refl refl no_temp other_name saved refl refl
