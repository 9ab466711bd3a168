-- ===== src/Ghostty/Mock.antt =====
-- internal/ghostty/ghosttytest/mock.go: the controller that the tests use, which records its calls.
use shimux.Base.{Bytes, str, Error, Option, none, List, [], ◌∷◌, ◌++◌}
use shimux.Ghostty.{SplitDirection, GotoDirection, Controller}

-- The values that are passed in `Args`.
pub data Arg : Type 0 where
  split_arg : SplitDirection → Arg
  goto_arg : GotoDirection → Arg

pub record MockCall : Type 0 where
  pub method : Bytes
  pub args : List Arg

pub record MockController : Type 0 where
  pub calls : List MockCall
  pub split_err : Option Error
  pub goto_err : Option Error
  pub close_err : Option Error

-- `m.Calls = append(m.Calls, …)`
abbrev pub note : Bytes → List Arg → MockController → MockController
note method args m = record m { calls = m.calls ++ record { method = method; args = args } ∷ [] }

unfoldable pub mock_new_window : MockController → Option Error × MockController
mock_new_window m = (none, note (str "NewWindow") [] m)

unfoldable pub mock_new_tab : MockController → Option Error × MockController
mock_new_tab m = (none, note (str "NewTab") [] m)

unfoldable pub mock_new_split : SplitDirection → MockController → Option Error × MockController
mock_new_split d m = (m.split_err, note (str "NewSplit") (split_arg d ∷ []) m)

unfoldable pub mock_goto_split : GotoDirection → MockController → Option Error × MockController
mock_goto_split d m = (m.goto_err, note (str "GotoSplit") (goto_arg d ∷ []) m)

unfoldable pub mock_close_surface : MockController → Option Error × MockController
mock_close_surface m = (m.close_err, note (str "CloseSurface") [] m)

abbrev pub mock_controller : Controller MockController
mock_controller = record {
  new_window = mock_new_window;
  new_tab = mock_new_tab;
  new_split = mock_new_split;
  goto_split = mock_goto_split;
  close_surface = mock_close_surface;
}
