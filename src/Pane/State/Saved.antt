-- ===== src/Pane/State/Saved.antt =====
-- internal/pane/manager.go: what `Save` leaves in the files, and what `Load` reads back.
use shimux.Base.{
  if◌then◌else◌, Bool-cases, take, All, Distinct, Bytes, str, equal, equal_iff, equal_refl,
  equal-false, Error, wrap, Result, ok, err, ℕ, ◌≡◌, refl, sym, ap, subst, ◌∙◌, ◌≢◌, ◌⊎◌, inl, inr,
  true, false, Option, none, some, List, [], ◌∷◌, ◌++◌, append-nil, append_assoc, arith,
}
use shimux.Base.Maps.{lookup, put, remove, lookup-put, lookup-remove}
use shimux.Pane.{Pane, Manager}
use shimux.Pane.Panes.{Panes, ids, find}
use shimux.Pane.Refines.{Represents, readers}
use shimux.Pane.State.{
  ManagerState, Json, Files, Answers, rename_file, rename_temp, close_temp, write_temp, save_data,
  save, state_of, add_panes, loaded, read_file, read_at, load,
}

-- `Save` of `data` to `file` is all or nothing: it succeeds and the file holds the data, or it fails
-- and the file is what it was; no other file differs.
pub record IsAtomic (file bytes : Bytes) (files : Files) (r : Option Error) (after : Files)
    : Type 0 where
  pub written : r ≡ none → lookup file after ≡ some bytes
  pub untouched : r ≢ none → lookup file after ≡ lookup file files
  pub others : (q : Bytes) → q ≢ file → lookup q after ≡ lookup q files

module _ (file tmp bytes : Bytes) (files : Files) (fresh : lookup tmp files ≡ none)
    (other : tmp ≢ file) where
  abbrev Atomic : Option Error × Files → Type 0
  Atomic x = IsAtomic file bytes files x.0 x.1

  failed-IsAtomic :
      (e : Error) (after : Files)
      → ((q : Bytes) → lookup q after ≡ lookup q files)
      → IsAtomic file bytes files (some e) after
  failed-IsAtomic e after same = record {
    written = λ h. cc;
    untouched = λ h. same file;
    others = λ q h. same q;
  }

  -- The temporary file of this save, with some content.
  abbrev temp_file : Bytes → Files
  temp_file content = put tmp content (put tmp [] files)

  temp_dropped : (content q : Bytes) → lookup q (remove tmp (temp_file content)) ≡ lookup q files
  temp_dropped content q = ground (
    arith,
    lookup-remove tmp q (temp_file content),
    lookup-put tmp q content (put tmp [] files),
    lookup-put tmp q [] files,
    equal_iff tmp q,
  )

  found_temp : lookup tmp (temp_file bytes) ≡ some bytes
  found_temp = ground (arith, lookup-put tmp tmp bytes (put tmp [] files), equal_refl tmp)

  put-IsAtomic : IsAtomic file bytes files none (put file bytes (remove tmp (temp_file bytes)))
  put-IsAtomic = record {
    written = λ h.
        ground (arith, lookup-put file file bytes (remove tmp (temp_file bytes)), equal_refl file);
    untouched = λ h. absurd (h refl);
    others = λ q h.
        lookup-put file q bytes (remove tmp (temp_file bytes))
        ∙ rw (equal-false file q (λ e. h (sym e))) (temp_dropped bytes q);
  }

  renamed-IsAtomic : IsAtomic file bytes files none (rename_file tmp file (temp_file bytes))
  unfolding rename_file
  renamed-IsAtomic = rw (found_temp, rename_file) put-IsAtomic

  failed_with :
      (e : Error) (content : Bytes)
      → IsAtomic file bytes files (some e) (remove tmp (temp_file content))
  failed_with e content = failed-IsAtomic e (remove tmp (temp_file content)) (temp_dropped content)

  write_temp-IsAtomic :
      (ans : Answers)
      → let x = write_temp ans file tmp bytes (put tmp [] files) in
        IsAtomic file bytes files x.0 x.1
  unfolding write_temp close_temp rename_temp
  write_temp-IsAtomic ans = by_write ans.write ans.close ans.rename
    where
      by_write :
          (w : Option (ℕ × Error)) (c r : Option Error)
          → let x =
              write_temp
                (record ans { write = w; close = c; rename = r })
                file
                tmp
                bytes
                (put tmp [] files) in
            IsAtomic file bytes files x.0 x.1
      by_write (some (k, e)) c r = failed_with _ (take k bytes)
      by_write none (some e) r = failed_with _ bytes
      by_write none none (some e) = failed_with _ bytes
      by_write none none none = renamed-IsAtomic

-- With the document and the temporary file's name at hand.
save_named-IsAtomic :
    (json : Json) (ans : Answers) (m : Manager) (files : Files) (tmp bytes : Bytes)
    → json.marshal (state_of m) ≡ ok bytes
    → ans.temp ≡ ok tmp
    → lookup tmp files ≡ none
    → tmp ≢ m.state_file
    → IsAtomic m.state_file bytes files (save json ans m files).0 (save json ans m files).1
unfolding save save_data
save_named-IsAtomic json ans m files tmp bytes made named fresh other =
    subst (λ (x : Option Error × Files). IsAtomic m.state_file bytes files x.0 x.1) (sym steps)
      (write_temp-IsAtomic m.state_file tmp bytes files fresh other ans)
  where
    steps : save json ans m files ≡ write_temp ans m.state_file tmp bytes (put tmp [] files)
    steps = rw (made, save, named, save_data) refl

-- A save of the document `doc`, which is an error when the JSON writer fails.
pub record AllOrNothing (file : Bytes) (doc : Result Bytes) (files : Files) (r : Option Error)
    (after : Files) : Type 0 where
  pub saved : r ≡ none → (bytes : Bytes) × (doc ≡ ok bytes) × (lookup file after ≡ some bytes)
  pub kept : r ≢ none → lookup file after ≡ lookup file files
  pub rest : (q : Bytes) → q ≢ file → lookup q after ≡ lookup q files

AllOrNothing-failed :
    (file : Bytes) (doc : Result Bytes) (files : Files) (e : Error)
    → AllOrNothing file doc files (some e) files
AllOrNothing-failed file doc files e = record {
  saved = λ h. absurd (cc h);
  kept = λ h. refl;
  rest = λ q h. refl;
}

-- A save that fails before there is a temporary file.
save-unmarshalled :
    (json : Json) (ans : Answers) (m : Manager) (files : Files) (e : Error)
    → json.marshal (state_of m) ≡ err e
    → save json ans m files ≡ (some (wrap (str "marshal state") e), files)
unfolding save
save-unmarshalled json ans m files e made = rw (made, save) refl

save-unnamed :
    (json : Json) (ans : Answers) (m : Manager) (files : Files) (bytes : Bytes) (e : Error)
    → json.marshal (state_of m) ≡ ok bytes
    → ans.temp ≡ err e
    → save json ans m files ≡ (some (wrap (str "create temp file") e), files)
unfolding save save_data
save-unnamed json ans m files bytes e made named = rw (made, save, named, save_data) refl

AllOrNothing-IsAtomic :
    {file bytes : Bytes} {doc : Result Bytes} {files : Files} {r : Option Error} {after : Files}
    → doc ≡ ok bytes
    → IsAtomic file bytes files r after
    → AllOrNothing file doc files r after
AllOrNothing-IsAtomic {bytes = bytes} made i = record {
  saved = λ h. (bytes, made, i.written h);
  kept = i.untouched;
  rest = i.others;
}

-- `Save` is all or nothing, whichever of its five calls fails: the JSON writer, the making of the
-- temporary file, the write, the close or the rename. If it returns no error the document was made and
-- the state file holds the whole of it; if it returns an error the state file is what it was; every
-- other file is what it was and no temporary file is left. The name that a temporary file is made
-- under, if one is made, is one that no file has.
pub save-IsAtomic :
    (json : Json) (ans : Answers) (m : Manager) (files : Files)
    → ((tmp : Bytes) → ans.temp ≡ ok tmp → (lookup tmp files ≡ none) × (tmp ≢ m.state_file))
    → AllOrNothing m.state_file
        (json.marshal (state_of m))
        files
        (save json ans m files).0
        (save json ans m files).1
save-IsAtomic json ans m files new = by_calls (json.marshal (state_of m)) refl ans.temp refl
  where
    ends :
        (e : Error)
        → save json ans m files ≡ (some e, files)
        → let x = save json ans m files in
          AllOrNothing m.state_file (json.marshal (state_of m)) files x.0 x.1
    ends e steps =
        subst
          (λ (x : Option Error × Files).
            AllOrNothing m.state_file (json.marshal (state_of m)) files x.0 x.1)
          (sym steps) (AllOrNothing-failed m.state_file (json.marshal (state_of m)) files e)

    by_calls :
        (doc : Result Bytes)
        → json.marshal (state_of m) ≡ doc
        → (name : Result Bytes) → ans.temp ≡ name
        → let x = save json ans m files in
          AllOrNothing m.state_file (json.marshal (state_of m)) files x.0 x.1
    by_calls (err e) made name named = ends _ (save-unmarshalled json ans m files e made)
    by_calls (ok bytes) made (err e) named =
        ends _ (save-unnamed json ans m files bytes e made named)
    by_calls (ok bytes) made (ok tmp) named =
        let (fresh, other) = new tmp named in
        AllOrNothing-IsAtomic made
          (save_named-IsAtomic json ans m files tmp bytes made named fresh other)

find-absent : (j : Bytes) (ps : List Pane) → All (λ i. i ≢ j) (ids ps) → find j ps ≡ none
unfolding find
find-absent j [] h = refl
find-absent j (p ∷ ps) (n, h) = rw (equal-false p.id j n) (find-absent j ps h)

abbrev or_else : Option Pane → Option Pane → Option Pane
or_else (some p) o = some p
or_else none o = o

lookup-add_panes :
    (j : Bytes) (ps : List Pane) (m : Manager)
    → Distinct (ids ps)
    → lookup j (add_panes ps m).panes ≡ or_else (find j ps) (lookup j m.panes)
unfolding add_panes find
lookup-add_panes j [] m d = refl
lookup-add_panes j (p ∷ ps) m (n, d) =
    lookup-add_panes j ps (record m { panes = put p.id p m.panes; order = m.order ++ p.id ∷ [] }) d
    ∙ by_id (Bool-cases (equal p.id j))
  where
    by_id :
        (equal p.id j ≡ true) ⊎ (equal p.id j ≡ false)
        → or_else (find j ps) (lookup j (put p.id p m.panes))
          ≡ or_else (if equal p.id j then some p else find j ps) (lookup j m.panes)
    by_id (inl e) =
        let absent =
          find-absent j ps (subst (λ x. All (λ i. i ≢ x) (ids ps)) ((equal_iff p.id j).0 e) n) in
        rw (absent, lookup-put p.id j p m.panes, e) refl
    by_id (inr e) = rw (lookup-put p.id j p m.panes, e) refl

order-add_panes : (ps : List Pane) (m : Manager) → (add_panes ps m).order ≡ m.order ++ ids ps
unfolding add_panes
order-add_panes [] m = sym (append-nil m.order)
order-add_panes (p ∷ ps) m =
    order-add_panes ps (record m { panes = put p.id p m.panes; order = m.order ++ p.id ∷ [] })
    ∙ append_assoc m.order (p.id ∷ []) (ids ps)

loaded-Represents :
    {s : Panes} {m : Manager} (m' : Manager)
    → Represents m s
    → Represents (loaded (state_of m) m') s
unfolding lookup find
loaded-Represents {s} {m} m' r =
    subst
      (λ (l : List Pane). Represents (loaded (record { panes = l; next_id = m.next_pane_id }) m') s)
      (sym (readers [] r).1)
      (record {
        order_is = order-add_panes s.items (record m' { panes = []; order = [] });
        lookup_is = λ j.
            lookup-add_panes j s.items (record m' { panes = []; order = [] }) r.distinct
            ∙ absent (find j s.items);
        distinct = r.distinct;
        issued = r.issued;
        next_is = r.next_is;
      })
  where
    absent : (o : Option Pane) → or_else o none ≡ o
    absent none = refl
    absent (some p) = refl

read_file-found :
    (ans : Answers) (path bytes : Bytes) (files : Files)
    → ans.read ≡ none
    → lookup path files ≡ some bytes
    → read_file ans path files ≡ ok bytes
read_file-found ans path bytes files a b =
    ap (λ x. read_at path x (lookup path files)) a ∙ ap (read_at path none) b

load-read :
    (json : Json) (ans : Answers) (m : Manager) (files : Files) (bytes : Bytes) (s : ManagerState)
    → read_file ans m.state_file files ≡ ok bytes
    → json.unmarshal bytes ≡ ok s
    → load json ans m files ≡ ok (loaded s m)
unfolding load
load-read json ans m files bytes s a b = by_read (read_file ans m.state_file files) a
  where
    by_read :
        (x : Result Bytes)
        → x ≡ ok bytes
        → (elim x as (λ z. Result Manager) [
          | err e ↦ err (wrap (str "read state file") e)
          | ok c ↦ elim (json.unmarshal c) [
            | err e ↦ err (wrap (str "unmarshal state") e)
            | ok t ↦ ok (loaded t m)
          ]
        ])
          ≡ ok (loaded s m)
    by_read x h = rw (h, b) refl

-- What one process saved, another one loads: after a `Save` with no error, `Load` by any manager with
-- the same state file gives the panes that were saved, in their order, with the same next ID, if the
-- system reads the file and the JSON reader reads back the document that the JSON writer wrote.
pub load-save :
    (json : Json) (ans ans' : Answers) {m : Manager} (m' : Manager) {s : Panes} (files : Files)
    (tmp bytes : Bytes)
    → Represents m s
    → json.marshal (state_of m) ≡ ok bytes
    → json.unmarshal bytes ≡ ok (state_of m)
    → ans.temp ≡ ok tmp
    → lookup tmp files ≡ none
    → tmp ≢ m.state_file
    → (save json ans m files).0 ≡ none
    → ans'.read ≡ none
    → m'.state_file ≡ m.state_file
    → (m'' : Manager) × (load json ans' m' (save json ans m files).1 ≡ ok m'') × Represents m'' s
load-save json ans ans' {m} m' {s} files tmp bytes r made parsed named fresh other done readable
      same =
    (
      loaded (state_of m) m',
      load-read json ans' m' _ bytes (state_of m)
          (read_file-found ans' m'.state_file bytes _ readable (
            subst (λ f. lookup f (save json ans m files).1 ≡ some bytes) (sym same)
              ((save_named-IsAtomic json ans m files tmp bytes made named fresh other).written
                done)))
          parsed,
      loaded-Represents m' r,
    )
