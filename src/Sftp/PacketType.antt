-- ===== src/Sftp/PacketType.antt =====
-- crates/russh-extra/src/sftp/packet.rs: the packet types.
use russh_extra.Base.{ℕ}

abbrev pub fxp_init : ℕ
fxp_init = 1

abbrev pub fxp_version : ℕ
fxp_version = 2

abbrev pub fxp_open : ℕ
fxp_open = 3

abbrev pub fxp_close : ℕ
fxp_close = 4

abbrev pub fxp_read : ℕ
fxp_read = 5

abbrev pub fxp_write : ℕ
fxp_write = 6

abbrev pub fxp_lstat : ℕ
fxp_lstat = 7

abbrev pub fxp_fstat : ℕ
fxp_fstat = 8

abbrev pub fxp_setstat : ℕ
fxp_setstat = 9

abbrev pub fxp_fsetstat : ℕ
fxp_fsetstat = 10

abbrev pub fxp_opendir : ℕ
fxp_opendir = 11

abbrev pub fxp_readdir : ℕ
fxp_readdir = 12

abbrev pub fxp_remove : ℕ
fxp_remove = 13

abbrev pub fxp_mkdir : ℕ
fxp_mkdir = 14

abbrev pub fxp_rmdir : ℕ
fxp_rmdir = 15

abbrev pub fxp_realpath : ℕ
fxp_realpath = 16

abbrev pub fxp_stat : ℕ
fxp_stat = 17

abbrev pub fxp_rename : ℕ
fxp_rename = 18

abbrev pub fxp_readlink : ℕ
fxp_readlink = 19

abbrev pub fxp_symlink : ℕ
fxp_symlink = 20

abbrev pub fxp_status : ℕ
fxp_status = 101

abbrev pub fxp_handle : ℕ
fxp_handle = 102

abbrev pub fxp_data : ℕ
fxp_data = 103

abbrev pub fxp_name : ℕ
fxp_name = 104

abbrev pub fxp_attrs : ℕ
fxp_attrs = 105
