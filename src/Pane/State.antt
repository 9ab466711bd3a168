-- ===== src/Pane/State.antt =====
-- internal/pane/manager.go: `Save` and `Load`, and the state file.
pub mod Saved
use shimux.Base.{
  take, Bytes, str, Error, message, wrap, Result, ok, err, ℕ, ◌+◌, Option, none, some, List, [],
  ◌∷◌, ◌++◌,
}
use Prim.Native.String.{String}
use shimux.Base.Int.{ℤ}
use shimux.Base.Maps.{lookup, put, remove}
use shimux.Pane.{Pane, Manager, list}

pub record ManagerState : Type 0 where
  pub panes : List Pane
  pub next_id : ℤ

-- `json.MarshalIndent` and `json.Unmarshal` of a `managerState`. An entry `null` in the list of a
-- document, which no saved document has, makes `Load` panic; no list of panes stands for it.
pub record Json : Type 0 where
  pub marshal : ManagerState → Result Bytes
  pub unmarshal : Bytes → Result ManagerState

-- The contents of the files by their paths.
abbrev pub Files : Type 0
Files = List (Bytes × Bytes)

-- What the system answers to the calls of one `Save` or `Load`: the name that `os.CreateTemp` gives in
-- the state file's directory, a write that stops after some bytes, and the errors of the others. The
-- removal of a temporary file that was made is taken to succeed.
pub record Answers : Type 0 where
  pub temp : Result Bytes
  pub write : Option (ℕ × Error)
  pub close : Option Error
  pub rename : Option Error
  pub read : Option Error

unfoldable pub rename_file : Bytes → Bytes → Files → Files
rename_file old new files = elim (lookup old files) [
  | none ↦ files
  | some content ↦ put new content (remove old files)
]

abbrev failed : String → Error → Files → Option Error × Files
failed text e files = (some (wrap (str text) e), files)

module _ (ans : Answers) where
  unfoldable pub rename_temp : Bytes → Bytes → Files → Option Error × Files
  unfolding rename_file
  rename_temp file tmp files = elim ans.rename [
    | some e ↦ failed "rename temp file" e (remove tmp files)
    | none ↦ (none, rename_file tmp file files)
  ]

  unfoldable pub close_temp : Bytes → Bytes → Files → Option Error × Files
  unfolding rename_temp
  close_temp file tmp files = elim ans.close [
    | some e ↦ failed "close temp file" e (remove tmp files)
    | none ↦ rename_temp file tmp files
  ]

  unfoldable pub write_temp : Bytes → Bytes → Bytes → Files → Option Error × Files
  unfolding close_temp
  write_temp file tmp bytes files = elim ans.write [
    | some (k, e) ↦ failed "write temp file" e (remove tmp (put tmp (take k bytes) files))
    | none ↦ close_temp file tmp (put tmp bytes files)
  ]

  -- The temporary file is made, empty, and then written.
  unfoldable pub save_data : Bytes → Bytes → Files → Option Error × Files
  unfolding write_temp
  save_data file bytes files = elim ans.temp [
    | err e ↦ failed "create temp file" e files
    | ok tmp ↦ write_temp file tmp bytes (put tmp [] files)
  ]

abbrev pub state_of : Manager → ManagerState
state_of m = record { panes = list m; next_id = m.next_pane_id }

unfoldable pub save : Json → Answers → Manager → Files → Option Error × Files
unfolding save_data
save json ans m files = elim (json.marshal (state_of m)) [
  | err e ↦ failed "marshal state" e files
  | ok bytes ↦ save_data ans m.state_file bytes files
]

-- The loop over the panes of the document.
unfoldable pub add_panes : List Pane → Manager → Manager
add_panes [] m = m
add_panes (p ∷ ps) m =
    add_panes ps (record m { panes = put p.id p m.panes; order = m.order ++ p.id ∷ [] })

abbrev pub loaded : ManagerState → Manager → Manager
loaded s m = record (add_panes s.panes (record m { panes = []; order = [] })) {
  next_pane_id = s.next_id;
}

-- `os.ReadFile`, from the error of the system and what stands under the path.
abbrev pub read_at : Bytes → Option Error → Option Bytes → Result Bytes
read_at path (some e) found = err e
read_at path none none = err (message (str "open " ++ (path ++ str ": no such file or directory")))
read_at path none (some bytes) = ok bytes

abbrev pub read_file : Answers → Bytes → Files → Result Bytes
read_file ans path files = read_at path ans.read (lookup path files)

unfoldable pub load : Json → Answers → Manager → Files → Result Manager
load json ans m files = elim (read_file ans m.state_file files) [
  | err e ↦ err (wrap (str "read state file") e)
  | ok bytes ↦ elim (json.unmarshal bytes) [
    | err e ↦ err (wrap (str "unmarshal state") e)
    | ok s ↦ ok (loaded s m)
  ]
]
