-- ===== src/Nodes/Inodes.antt =====
-- The inodes that a rename moves, `retargetNode` of internal/fuse/node.go. The moving itself is that
-- of the FUSE library.
use livegit.Prelude.{Bytes, ◌++◌, ◌∷◌}
use livegit.Prefix.{slash}
use livegit.Paths.{rel}

-- An inode of the mount with its path, or a foreign one, and the children that the kernel knows.
mutual
  pub data Inode : Type 0 where
    node : Bytes → Inodes → Inode
    foreign : Inode

  pub data Inodes : Type 0 where
    none_left : Inodes
    child_of : Bytes → Inode → Inodes → Inodes

unfoldable mutual
  -- `retargetNode`
  pub retarget_node : Inode → Bytes → Inode
  retarget_node foreign p = foreign
  retarget_node (node old below) p = node p (retarget_children below p)

  pub retarget_children : Inodes → Bytes → Inodes
  retarget_children none_left p = none_left
  retarget_children (child_of name i rest) p =
      child_of name (retarget_node i (rel (p ++ slash ∷ name))) (retarget_children rest p)
