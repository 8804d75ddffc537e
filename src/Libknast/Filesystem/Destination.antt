-- ===== src/Libknast/Filesystem/Destination.antt =====
-- libknast/src/filesystem.rs, `prefixed_destination`: mounts and directories stay in the rootfs.
use mathlib.Core.List.{append-nil, append_assoc}
use knast.Base.{Text, Bool, true, false, List, [], ◌∷◌, ◌++◌, filter, All, ◌≡◌, sym}
use knast.Base.Paths.{Component, root_dir, cur_dir, parent_dir, normal, components, join}
use knast.Base.Paths.Names.{NormalName, components_names}
use knast.Base.Paths.Join.{components-join}
use knast.Libknast.Filesystem.{push_normal, prefixed_destination}

abbrev pub is_normal : Component → Bool
is_normal (normal n) = true
is_normal c = false

components-push_normal :
    (path : Text) (cs : List Component)
    → All NormalName cs
    → components (push_normal path cs) ≡ components path ++ filter is_normal cs
unfolding push_normal
components-push_normal path [] h = sym (append-nil (components path))
components-push_normal path (normal n ∷ cs) h =
    rw (components-push_normal (join path n) cs h.1, components-join path n h.0)
      (append_assoc (components path) _ _)
components-push_normal path (root_dir ∷ cs) h = components-push_normal path cs h.1
components-push_normal path (cur_dir ∷ cs) h = components-push_normal path cs h.1
components-push_normal path (parent_dir ∷ cs) h = components-push_normal path cs h.1

-- The components of a prefixed destination are those of the rootfs followed by the normal
-- components of the destination, so that no destination leaves the rootfs.
pub prefixed_destination_inside :
    (rootfs destination : Text)
    → components (prefixed_destination rootfs destination)
      ≡ components rootfs ++ filter is_normal (components destination)
unfolding prefixed_destination
prefixed_destination_inside rootfs destination =
    components-push_normal rootfs (components destination) (components_names destination)
