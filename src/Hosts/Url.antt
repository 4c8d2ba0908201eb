-- ===== src/Hosts/Url.antt =====
-- hosts.go: the URLs of hosts that are reached over SSH.
use d9c.Base.{
  Bool, true, false, String, Option, none, some, List, [], ◌∷◌, ◌<+>◌, ◌==◌, if◌then◌else◌,
  has_prefix, trim_prefix, cut_last,
}

abbrev pub ssh_schemes : List String
ssh_schemes = "nerdctl+ssh://" ∷ "crio+ssh://" ∷ "cri+ssh://" ∷ "ssh://" ∷ []

-- The loop over the schemes: the scheme and the rest of the URL.
unfoldable pub scheme_parts : String → List String → Option (String × String)
scheme_parts url [] = none
scheme_parts url (p ∷ rest) =
    if has_prefix url p then some (p, trim_prefix url p) else scheme_parts url rest

-- sshParts
unfoldable pub ssh_parts : String → Option (String × String)
ssh_parts url = scheme_parts url ssh_schemes

-- IsSSH
unfoldable pub is_ssh : String → Bool
is_ssh url = elim (ssh_parts url) [ none ↦ false | some _ ↦ true ]

-- SSHUser
unfoldable pub ssh_user : String → String
ssh_user url = elim (ssh_parts url) [
  | none ↦ ""
  | some (prefix, rest) ↦ elim (cut_last rest "@") [ some (user, _) ↦ user | none ↦ "" ]
]

-- The part behind the last "@".
abbrev pub after_login : String → String
after_login rest = elim (cut_last rest "@") [ some (_, after) ↦ after | none ↦ rest ]

-- WithSSHUser
unfoldable pub with_ssh_user : String → String → String
with_ssh_user url user = elim (ssh_parts url) [
  | none ↦ url
  | some (prefix, rest) ↦
      if user == ""
      then prefix <+> after_login rest
      else prefix <+> user <+> "@" <+> after_login rest
]
