-- ===== src/Ui/Layout/Columns.antt =====
-- The columns and sections of the tables, of internal/ui/table/table.go and layout.go.
use d9c.Base.{ℕ, String, List, [], ◌∷◌, map}

pub record Column : Type 0 where
  pub title : String
  pub width : ℕ

pub data Section : Type 0 where
  containers : Section
  stats : Section
  images : Section
  networks : Section
  volumes : Section
  compose : Section
  hosts : Section

abbrev pub section_text : Section → String
section_text containers = "containers"
section_text stats = "stats"
section_text images = "images"
section_text networks = "networks"
section_text volumes = "volumes"
section_text compose = "compose"
section_text hosts = "hosts"

abbrev pub sections : List Section
sections = containers ∷ stats ∷ images ∷ networks ∷ volumes ∷ compose ∷ hosts ∷ []

-- The titles and widths of ContainerColumns and the others, in hundredths.
abbrev pub shares : Section → List (String × ℕ)
shares containers =
    ("NAME", 19)
    ∷ ("IMAGE", 20)
    ∷ ("STATUS", 15)
    ∷ ("HEALTH", 9)
    ∷ ("PORTS", 15)
    ∷ ("CPU %", 7)
    ∷ ("MEM", 8)
    ∷ ("ID", 7)
    ∷ []
shares stats =
    ("NAME", 18)
    ∷ ("CPU %", 10)
    ∷ ("MEM", 14)
    ∷ ("MEM %", 10)
    ∷ ("NET I/O", 19)
    ∷ ("BLOCK I/O", 19)
    ∷ ("ID", 10)
    ∷ []
shares images = ("REPOSITORY:TAG", 45) ∷ ("SIZE", 12) ∷ ("CREATED", 25) ∷ ("ID", 18) ∷ []
shares networks = ("NAME", 28) ∷ ("DRIVER", 14) ∷ ("SCOPE", 12) ∷ ("SUBNET", 28) ∷ ("ID", 18) ∷ []
shares volumes = ("NAME", 28) ∷ ("DRIVER", 12) ∷ ("MOUNTPOINT", 42) ∷ ("CREATED", 18) ∷ []
shares compose =
    ("PROJECT", 16) ∷ ("NAME", 18) ∷ ("PATH", 30) ∷ ("STATUS", 15) ∷ ("COMMAND", 19) ∷ []
shares hosts =
    ("NAME", 15)
    ∷ ("HOST", 27)
    ∷ ("STATUS", 11)
    ∷ ("CONTAINERS", 13)
    ∷ ("RUNNING", 11)
    ∷ ("IMAGES", 10)
    ∷ ("VERSION", 13)
    ∷ []

unfoldable pub columns : (ℕ → ℕ → ℕ) → Section → ℕ → List Column
columns scale s w = map (λ share. record { title = share.0; width = scale w share.1 }) (shares s)

-- sectionSpec.identity
abbrev pub identity : Section → ℕ
identity containers = 7
identity stats = 6
identity images = 3
identity networks = 4
identity volumes = 0
identity compose = 2
identity hosts = 0
