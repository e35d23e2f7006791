-- ===== src/Ec2/CloudInit.antt =====
-- apps/api/internal/ec2/cloudinit.go: the user data of an instance, as code points.
use cledyu.Base.{
  ℕ, String, ◌≡◌, refl, ap, ◌∙◌, Bool, true, false, ◌||◌, List, [], ◌∷◌, ◌++◌, Option, none, some,
  arith, codes, ◌==◌, if◌then◌else◌, All, str_eq,
}
use cledyu.Session.{BootInit}
use cledyu.Ec2.{Config, tailnet_hostname}

abbrev pub Text : Type 0
Text = List ℕ

abbrev pub quote : ℕ
quote = 34

abbrev pub backslash : ℕ
backslash = 92

-- strings.NewReplacer for backslashes and quotes
unfoldable pub escape : Text → Text
escape [] = []
escape (c ∷ s) =
    let rest = escape s in if c == backslash || c == quote then backslash ∷ c ∷ rest else c ∷ rest

unfoldable pub yaml_scalar : Text → Text
unfolding escape
yaml_scalar s = quote ∷ escape s ++ quote ∷ []

-- an item of a YAML list, on its own line
unfoldable pub item : Text → Text
item s = codes "  - " ++ s ++ codes "\n"

unfoldable pub items : (Text → Text) → List String → Text
unfolding item
items f [] = []
items f (x ∷ l) = item (f (codes x)) ++ items f l

abbrev pub users_part : String
users_part =
    "#cloud-config\nusers:\n  - name: lab\n    lock_passwd: false\n    shell: /bin/bash\n    sudo: ALL=(ALL) NOPASSWD:ALL\nchpasswd:\n  expire: false\n  list: |\n    lab:lab\n"

abbrev pub tools_part : String
tools_part =
    "runcmd:\n  - sh -c 'miss=; for c in curl unzip; do command -v $c >/dev/null 2>&1 || miss=\"$miss $c\"; done; [ -n \"$miss\" ] && { apt-get update; DEBIAN_FRONTEND=noninteractive apt-get install -y $miss; }; true'\n  - if systemctl enable --now amazon-ssm-agent 2>/dev/null; then :; else snap install amazon-ssm-agent --classic 2>/dev/null || true; systemctl enable --now snap.amazon-ssm-agent.amazon-ssm-agent.service 2>/dev/null || true; fi\n"

unfoldable pub packages_part : List String → Text
unfolding items yaml_scalar
packages_part [] = []
packages_part (p ∷ l) = codes "package_update: true\npackages:\n" ++ items yaml_scalar (p ∷ l)

-- installing and joining the tailnet
unfoldable pub tailnet_part : Config → String → String → Text
unfolding yaml_scalar tailnet_hostname
tailnet_part cfg sid key =
    if str_eq key ""
    then []
    else codes "  - curl -fsSL https://tailscale.com/install.sh | sh || true\n"
      ++ codes "  - tailscale up --ssh --hostname="
      ++ yaml_scalar (codes (tailnet_hostname cfg sid))
      ++ codes " --authkey="
      ++ yaml_scalar (codes key)
      ++ codes "\n"

unfoldable pub ide_part : String → Text
ide_part key =
    if str_eq key ""
    then []
    else codes "  - curl -fsSL https://code-server.dev/install.sh | sh || true\n"

unfoldable pub render_cloud_init : String → Config → BootInit → String → Text
unfolding packages_part tailnet_part ide_part items
render_cloud_init sid cfg init key =
    codes users_part
    ++ packages_part init.packages
    ++ codes tools_part
    ++ tailnet_part cfg sid key
    ++ items yaml_scalar init.runcmd
    ++ ide_part key

-- The characters that YAML takes for a line break: LF, CR, NEL, LS and PS.
abbrev pub is_break : ℕ → Bool
is_break c = c == 10 || (c == 13 || (c == 133 || (c == 8232 || c == 8233)))

-- A reader of a YAML scalar in double quotes on one line, which knows the escapes of a quote and of a
-- backslash: the text of the scalar, and what is left behind it. It gives up at a line break.
abbrev pub push : ℕ → Option (Text × Text) → Option (Text × Text)
push c none = none
push c (some (s, r)) = some (c ∷ s, r)

-- behind the opening quote; the flag tells that a backslash came before
unfoldable pub read_open : Bool → Text → Option (Text × Text)
read_open escaped [] = none
read_open true (c ∷ s) =
    let more = push c (read_open false s) in if c == backslash || c == quote then more else none
read_open false (c ∷ s) =
    let after_backslash = read_open true s in
    let more = push c (read_open false s) in
    if c == quote
    then some ([], s)
    else if c == backslash
    then after_backslash
    else if is_break c
    then none
    else more

unfoldable pub read_scalar : Text → Option (Text × Text)
unfolding read_open
read_scalar [] = none
read_scalar (c ∷ s) = if c == quote then read_open false s else none

read_open-escape :
    (s rest : Text)
    → All (λ c. is_break c ≡ false) s
    → read_open false (escape s ++ quote ∷ rest) ≡ some (s, rest)
unfolding read_open escape
read_open-escape [] rest h = refl
read_open-escape (c ∷ s) rest (h, hs) = ground (arith, read_open-escape s rest hs)

append-cons : (a rest : Text) → (a ++ quote ∷ []) ++ rest ≡ a ++ quote ∷ rest
append-cons [] rest = refl
append-cons (c ∷ a) rest = ap (λ r. c ∷ r) (append-cons a rest)

-- What yaml_scalar, by which the packages and the lab's commands are written, makes of a text without
-- line breaks is read back as it was by a reader of scalars in double quotes, whatever stands behind it.
pub read_scalar-yaml_scalar :
    (s rest : Text)
    → All (λ c. is_break c ≡ false) s
    → read_scalar (yaml_scalar s ++ rest) ≡ some (s, rest)
unfolding read_scalar yaml_scalar
read_scalar-yaml_scalar s rest h =
    ap (read_open false) (append-cons (escape s) rest) ∙ read_open-escape s rest h
