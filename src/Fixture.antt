-- ===== src/Fixture.antt =====
-- A kernel, a new VFS inode and a copy_from_user for runs and witnesses.
use fall_oslab.Base.{
  ℕ, ◌/◌, ◌^◌, false, List, [], length-take, take, arith, leb, ◌==◌, if◌then◌else◌,
}
use fall_oslab.Kernel.{Kernel, Inode, no_ops, IsCopy}

abbrev pub kernel : Kernel
kernel = record {
  block_size = 1024;
  s_isdir = λ m. m / 4096 == 4;
  s_isreg = λ m. m / 4096 == 8;
  s_islnk = λ m. m / 4096 == 10;
  s_ifdir_0755 = 16877;
  inode_init_owner = λ inode dir mode. record inode { i_mode = mode };
}

abbrev pub blank : Inode
blank = record {
  i_ino = 0;
  i_mode = 0;
  i_uid = 0;
  i_gid = 0;
  i_size = 0;
  i_blocks = 0;
  i_nlink = 1;
  i_atime = 0;
  i_mtime = 0;
  i_ctime = 0;
  i_ops = no_ops;
  i_private = 0;
  hashed = false;
}

-- copy_from_user when the user's buffer is mapped
unfoldable pub copy_all : List ℕ → ℕ → List ℕ × ℕ
copy_all bytes n = if leb (2 ^ 31) n then ([], n) else (take n bytes, 0)

pub copy_all-IsCopy : IsCopy copy_all
unfolding copy_all
copy_all-IsCopy = record {
  full = λ bytes n h. ground arith;
  bounded = λ bytes n. ground (arith, length-take n bytes);
  refused = λ bytes n h. ground arith;
}
