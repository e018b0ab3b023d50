-- ===== src/Session/Serve/Runs.antt =====
-- helper/session/serve.go: what the lines of a connection do to the session is a run of its operations.
use text.Mathlib.Text.{◌==◌ as str_eq}
use electric_eel.Base.{◌≡◌, ◌⊎◌, false, Option, some, List, [], ◌∷◌, ◌++◌}
use electric_eel.Session.State.{Session}
use electric_eel.Session.Keygen.{KeyFile, State}
use electric_eel.Session.Link.{Settings}
use electric_eel.Session.Link.Invariant.{Op}
use electric_eel.Session.Serve.{
  Response, Library, Outside, Line, empty, malformed, too_long, request, meanwhile, serve_line,
}
use electric_eel.Session.Serve.Performs.{Performs}

-- The operations that a line makes: those of its request, if it has one of the right type.
abbrev pub LinePerforms :
    Library → Settings → Outside → KeyFile → Line → Option Response → List Op → Type 0
LinePerforms lib cfg o file empty answer ops = ops ≡ []
LinePerforms lib cfg o file malformed answer ops = ops ≡ []
LinePerforms lib cfg o file too_long answer ops = ops ≡ []
LinePerforms lib cfg o file (request r) answer ops =
    ((str_eq r.type_name "request" ≡ false) × (ops ≡ []))
    ⊎ ((x : Response) × (answer ≡ some x) × Performs lib cfg o file r x ops)

-- The operations of a list of lines, one line after the other, each after those let in before it. The
-- file of the key and the answer are those at the line; after a line that is too long there are none.
abbrev pub LinesPerform : Library → Settings → List (Outside × Line) → State → List Op → Type 0
LinesPerform lib cfg [] st ops = ops ≡ []
LinesPerform lib cfg ((o, too_long) ∷ lines) st ops = ops ≡ o.before
LinesPerform lib cfg ((o, line) ∷ lines) st ops =
    let (st', answer) = serve_line lib cfg o line (meanwhile cfg o.before st) in
    (own rest : List Op) × LinePerforms lib cfg o st.1 line answer own
    × LinesPerform lib cfg lines st' rest
    × (ops ≡ o.before ++ (own ++ rest))
