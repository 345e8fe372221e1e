-- ===== src/ComposePost/Laid.antt =====
-- The calls of `copy_pacman_conf` and `prepare_rootfs` of src/composepost.rs.
use pacman_ostree.Base.{ℕ, String, sym, Option, none, some, List, [], ◌∷◌, ◌++◌}
use pacman_ostree.Base.Text.{◌<>◌}
use pacman_ostree.Base.Paths.{parent}
use pacman_ostree.System.Calls.{
  Call, in_root, create_dir_all, remove_file, remove_dir_all, write, copy, symlink, set_permissions,
  Host,
}
use pacman_ostree.System.Ending.{Does-pure}
use pacman_ostree.System.Making.{
  made, Makes, each, Makes-then, Makes-with_context, Makes-fs, Makes-dropped-fs, Makes-for_each,
}
use mathlib.Core.List.{append-nil}
use pacman_ostree.ComposePost.Post.{
  make_parent, remove_dirs, create_dirs, symlinks, var_dirs_0755, prepare_conf, make_symlink,
  make_dir, ensure_parent_exists, setup_base_dirs, prepare_rootfs, copy_pacman_conf,
}

-- The calls of the layout, in the image's directory.
abbrev cleared : String → List Call
cleared dir = in_root (remove_dir_all dir) ∷ []

abbrev created : String → List Call
created dir = in_root (create_dir_all dir) ∷ []

abbrev with_mode : ℕ → String → List Call
with_mode mode path = in_root (create_dir_all path) ∷ in_root (set_permissions path mode) ∷ []

-- A link in a directory that is made for it, in place of what is there.
abbrev linked : String → String → String → List Call
linked dir target path =
    in_root (create_dir_all dir)
    ∷ in_root (remove_file path)
    ∷ in_root (remove_dir_all path)
    ∷ in_root (symlink target path)
    ∷ []

abbrev pub layout : List Call
layout =
    in_root (
      write "usr/lib/ostree/prepare-root.conf"
        "[composefs]\nenabled = yes\n[sysroot]\nreadonly = true\n")
    ∷ (each cleared ("boot" ∷ "home" ∷ "root" ∷ "usr/local" ∷ "srv" ∷ "opt" ∷ "mnt" ∷ "var" ∷ [])
        ++ each created ("sysroot" ∷ "boot" ∷ "usr/lib/ostree" ∷ "var" ∷ [])
        ++ linked "" "sysroot/ostree" "ostree"
        ++ linked "" "var/roothome" "root"
        ++ linked "" "var/srv" "srv"
        ++ linked "" "var/opt" "opt"
        ++ linked "" "var/mnt" "mnt"
        ++ linked "" "var/home" "home"
        ++ linked "usr" "../var/usrlocal" "usr/local"
        ++ linked "var/lib" "usr/share/pacman" "var/lib/pacman"
        ++ each (with_mode 0o755)
            ("var/opt" ∷ "var/home" ∷ "var/srv" ∷ "var/mnt" ∷ "var/usrlocal" ∷ [])
        ++ with_mode 0o700 "var/roothome"
        ++ with_mode 0o755 "run/media"
        ++ with_mode 0o1777 "var/tmp")

module _ (host : Host) (root : String) where
  abbrev pub copying : Option String → List Call
  copying none = []
  copying (some conf) = copy conf (root <> "/etc/pacman.conf") ∷ []

  make_dir-Makes :
      (mode : ℕ) (path : String) → Makes (make_dir host mode path) (with_mode mode path)
  unfolding make_dir
  make_dir-Makes mode path = Makes-then _ _ (created path) _ (Makes-fs host _) (Makes-fs host _)

  abbrev made_above : Option String → List Call
  made_above none = []
  made_above (some dir) = created dir

  make_parent-Makes : (dir : Option String) → Makes (make_parent host dir) (made_above dir)
  make_parent-Makes none h = Does-pure tt h _ (sym (append-nil (made h)))
  make_parent-Makes (some dir) h = Makes-fs host _ h

  abbrev placed : String × String → List Call
  placed (target, path) =
      made_above (parent path)
      ++ (in_root (remove_file path)
          ∷ in_root (remove_dir_all path)
          ∷ in_root (symlink target path)
          ∷ [])

  make_symlink-Makes : (link : String × String) → Makes (make_symlink host link) (placed link)
  unfolding make_symlink ensure_parent_exists
  make_symlink-Makes (target, path) =
      Makes-then _ _ (made_above (parent path)) _ (make_parent-Makes (parent path)) (
        Makes-then _ _ (in_root (remove_file path) ∷ []) _ (Makes-dropped-fs host _) (
          Makes-then _ _ (in_root (remove_dir_all path) ∷ []) _ (Makes-dropped-fs host _)
            (Makes-fs host _)))

  pub layout-Makes : Makes (prepare_rootfs host) layout
  unfolding prepare_rootfs setup_base_dirs parent
  layout-Makes =
      Makes-then _ _ (in_root (write "usr/lib/ostree/prepare-root.conf" prepare_conf) ∷ []) _
        (Makes-with_context _ _ _ (Makes-fs host _))
        (Makes-then _ _ (each cleared remove_dirs) _
          (Makes-for_each _ cleared remove_dirs λ dir. Makes-dropped-fs host _)
          (Makes-then _ _ (each created create_dirs) _
            (Makes-for_each _ created create_dirs λ dir. Makes-with_context _ _ _ (Makes-fs host _))
            (Makes-then _ _ (each placed symlinks) _
              (Makes-for_each _ placed symlinks make_symlink-Makes)
              (Makes-then _ _ (each (λ d. with_mode 0o755 ("var/" <> d)) var_dirs_0755) _
                (Makes-for_each _ (λ d. with_mode 0o755 ("var/" <> d)) var_dirs_0755
                  λ d. make_dir-Makes 0o755 ("var/" <> d))
                (Makes-then _ _ (with_mode 0o700 "var/roothome") _
                  (make_dir-Makes 0o700 "var/roothome")
                  (Makes-then _ _ (with_mode 0o755 "run/media") _ (make_dir-Makes 0o755 "run/media")
                    (make_dir-Makes 0o1777 "var/tmp")))))))

  pub copying-Makes :
      (conf : Option String) → Makes (copy_pacman_conf host conf root) (copying conf)
  unfolding copy_pacman_conf
  copying-Makes none h = Does-pure tt h _ (sym (append-nil (made h)))
  copying-Makes (some conf) h = Makes-with_context _ _ _ (Makes-fs host _) h
