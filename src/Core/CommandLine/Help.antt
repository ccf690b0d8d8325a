-- ===== src/Core/CommandLine/Help.antt =====
-- lib/Core/src/SNFCore/CommandLineParser.cpp: `printHelp`, as the text that it writes.
use Prim.Native.Nat.{max}
use simply_node_framework.Prelude.{
  ℕ, List, [], All, arith, if◌then◌else◌, length, length-append, length-replicate, not, replicate,
  ◌&&◌, ◌++◌, ◌+◌, ◌-◌, ◌==◌, ◌∷◌, ◌≡◌, ◌≤◌,
}
use simply_node_framework.Prelude.Bytes.{codes}
use simply_node_framework.Core.CommandLine.{CommandLineOption, Parser, is_nil}

pub dashed : List ℕ → List ℕ
dashed name = if length name == 1 then codes "-" ++ name else codes "--" ++ name

-- The loop over the names behind the first.
pub more_names : List (List ℕ) → List ℕ
unfolding dashed
more_names [] = []
more_names (n ∷ ns) = codes ", " ++ dashed n ++ more_names ns

pub names_text : List (List ℕ) → List ℕ
unfolding dashed more_names
names_text [] = []
names_text (n ∷ ns) = dashed n ++ more_names ns

pub widest : List CommandLineOption → ℕ
unfolding names_text
widest [] = 0
widest (o ∷ os) = max (length (names_text o.names)) (widest os)

pub names_width : List CommandLineOption → ℕ
unfolding widest
names_width os = max (widest os) 20

-- The names of an option and the spaces behind them.
pub names_cell : ℕ → CommandLineOption → List ℕ
unfolding names_text
names_cell width o =
    let names = names_text o.names in
    codes "  " ++ names ++ replicate (width + 2 - length names) b' '

pub option_line : ℕ → CommandLineOption → List ℕ
unfolding names_cell
option_line width o =
    names_cell width o
    ++ o.description
    ++ (if not (is_nil o.default_value) && not o.is_flag
        then codes " (default: " ++ o.default_value ++ codes ")"
        else [])
    ++ codes "\n"

pub option_lines : ℕ → List CommandLineOption → List ℕ
unfolding option_line
option_lines width [] = []
option_lines width (o ∷ os) = option_line width o ++ option_lines width os

pub help_cell : ℕ → List ℕ
help_cell width = codes "  -h, --help" ++ replicate (width - 10 + 2) b' '

pub version_cell : ℕ → List ℕ
version_cell width = codes "  --version" ++ replicate (width - 9 + 2) b' '

pub help_text : Parser → List ℕ
unfolding names_width option_lines help_cell version_cell
help_text p =
    let width = names_width p.options in
    codes "Usage: [options]\n\n"
    ++ (if is_nil p.version then [] else codes "Version: " ++ p.version ++ codes "\n\n")
    ++ codes "Options:\n"
    ++ option_lines width p.options
    ++ (help_cell width ++ codes "Show this help message\n")
    ++ (if is_nil p.version then [] else version_cell width ++ codes "Show version\n")

-- Every cell takes the same room.
abbrev pub IsAligned : ℕ → List CommandLineOption → Type 0
IsAligned width os = All (λ o. length (names_cell width o) ≡ width + 4) os

names_cell-IsAligned :
    (width : ℕ) (os : List CommandLineOption) → widest os ≤ width → IsAligned width os
unfolding names_cell widest
names_cell-IsAligned width [] h = tt
names_cell-IsAligned width (o ∷ os) h =
    let names = names_text o.names in
    (
      omega (
        arith,
        h,
        length-append names (replicate (width + 2 - length names) b' '),
        length-replicate {A = ℕ} (width + 2 - length names) b' ',
      ),
      names_cell-IsAligned width os (omega (arith, h)),
    )

-- In the help of any options, every option's description, the text of the help option and the text
-- of the version option begin in the same column.
pub names_width-IsAligned :
    (os : List CommandLineOption)
    → IsAligned (names_width os) os
      × (length (help_cell (names_width os)) ≡ names_width os + 4)
      × (length (version_cell (names_width os)) ≡ names_width os + 4)
unfolding names_width help_cell version_cell
names_width-IsAligned os =
    let width = max (widest os) 20 in
    (
      names_cell-IsAligned width os (omega arith),
      omega (arith, length-replicate {A = ℕ} (width - 10 + 2) b' '),
      omega (arith, length-replicate {A = ℕ} (width - 9 + 2) b' '),
    )
