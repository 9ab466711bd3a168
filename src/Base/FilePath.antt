-- ===== src/Base/FilePath.antt =====
-- `path/filepath` of Go on Unix, as far as the program calls it: `Clean`, `Join`, `Base` and `Dir`.
pub mod Lengths
use mathlib.Core.Bool.{Bool, false, ◌||◌}
use mathlib.Core.List.{List, [], ◌∷◌, ◌++◌, reverse}
use shimux.Base.Tests.{◌==◌, if◌then◌else◌}
use shimux.Base.Text.{Bytes, str, equal, is}

abbrev first_byte : (Bytes → Bytes) → List Bytes → List Bytes
first_byte f [] = f [] ∷ []
first_byte f (e ∷ es) = f e ∷ es

-- The elements between the slashes.
unfoldable pub elements : Bytes → List Bytes
elements [] = [] ∷ []
elements (c ∷ s) = if c == b'/' then [] ∷ elements s else first_byte (λ e. c ∷ e) (elements s)

unfoldable pub join_slash : List Bytes → Bytes
join_slash [] = []
join_slash (e ∷ []) = e
join_slash (e ∷ f ∷ es) = e ++ b'/' ∷ join_slash (f ∷ es)

abbrev is_rooted : Bytes → Bool
is_rooted [] = false
is_rooted (c ∷ s) = c == b'/'

-- `..` leaves the directory on top of the stack.
leave : Bool → List Bytes → List Bytes
unfolding equal
leave rooted [] = if rooted then [] else str ".." ∷ []
leave rooted (top ∷ stack) = if is top ".." then str ".." ∷ top ∷ stack else stack

clean_elements : Bool → List Bytes → List Bytes → List Bytes
unfolding leave
clean_elements rooted stack [] = reverse stack
clean_elements rooted stack (e ∷ es) =
    clean_elements rooted
      (if is e "" || is e "." then stack else if is e ".." then leave rooted stack else e ∷ stack)
      es

abbrev or_dot : Bytes → Bytes
or_dot [] = str "."
or_dot (c ∷ s) = c ∷ s

unfoldable pub clean : Bytes → Bytes
unfolding elements join_slash clean_elements
clean path =
    let rooted = is_rooted path in
    let body = join_slash (clean_elements rooted [] (elements path)) in
    if rooted then b'/' ∷ body else or_dot body

-- Empty elements in front are dropped; no element at all gives the empty path.
unfoldable pub join : List Bytes → Bytes
unfolding clean join_slash
join [] = []
join ([] ∷ es) = join es
join ((c ∷ e) ∷ es) = clean (join_slash ((c ∷ e) ∷ es))

last_element : Bytes → List Bytes → Bytes
last_element found [] = found
last_element found ([] ∷ es) = last_element found es
last_element found ((c ∷ e) ∷ es) = last_element (c ∷ e) es

-- The last element that is not empty; `/` of slashes alone, `.` of the empty path.
unfoldable pub base_name : Bytes → Bytes
unfolding elements last_element
base_name [] = str "."
base_name (c ∷ s) = last_element (str "/") (elements (c ∷ s))

-- The path up to its last slash, with the slash.
unfoldable pub through_slash : Bytes → Bytes
through_slash [] = []
through_slash (c ∷ s) = elim (through_slash s) [
  | [] ↦ if c == b'/' then c ∷ [] else []
  | d ∷ rest ↦ c ∷ d ∷ rest
]

-- `filepath.Dir`
unfoldable pub dir_name : Bytes → Bytes
unfolding through_slash clean
dir_name path = clean (through_slash path)
