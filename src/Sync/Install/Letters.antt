-- ===== src/Sync/Install/Letters.antt =====
-- sync.c: the answers to the questions of `install_single_package`.
use powaur.Base.{ℕ, ◌≡◌, List, ◌∷◌, Option, none, some}
use powaur.Base.{if◌then◌else◌, ◌==◌, arith, Run, ok}
use powaur.Util.{Str, strtrim}
use powaur.Util.Ask.{check_mcq_response, mcq}
use powaur.Sync.Install.{System, Shell, Ret, fatal, choices, open_editor, after_answer, edit}

-- What an answer that begins with the letter means to `edit`.
abbrev pub asked : System → Shell → Str → ℕ → Run (Shell × Option Ret)
asked sys s name c =
    if c == b'n'
    then ok (s, none)
    else (if c == b'a' then ok (s, some fatal) else open_editor sys s name)

-- An answer that begins with one of the six letters is taken: only the small n leaves the file as it
-- is, and only the small a stops; the capital N and A open the editor, as y and Y do.
pub edit-asked :
    (sys : System) (s : Shell) (name line str : Str) (c i : ℕ) (input : List Str)
    → s.input ≡ line ∷ input
    → strtrim line ≡ c ∷ str
    → check_mcq_response c choices ≡ some i
    → edit sys s name ≡ asked sys (record s { input = input }) name c
unfolding edit mcq after_answer check_mcq_response
edit-asked sys s name line str c i input e k m = rw (e, mcq, k, m) (ground (arith, m))
