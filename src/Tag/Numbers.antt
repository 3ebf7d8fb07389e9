-- ===== src/Tag/Numbers.antt =====
-- types.gen.go: the numbers of the tags, the sense flags and the hash that files.go and tar2rpm use.
use go_rpm.Base.{ℕ}

abbrev pub rpmtag_name : ℕ
rpmtag_name = 1000

abbrev pub rpmtag_version : ℕ
rpmtag_version = 1001

abbrev pub rpmtag_release : ℕ
rpmtag_release = 1002

abbrev pub rpmtag_summary : ℕ
rpmtag_summary = 1004

abbrev pub rpmtag_description : ℕ
rpmtag_description = 1005

abbrev pub rpmtag_buildtime : ℕ
rpmtag_buildtime = 1006

abbrev pub rpmtag_size : ℕ
rpmtag_size = 1009

abbrev pub rpmtag_vendor : ℕ
rpmtag_vendor = 1011

abbrev pub rpmtag_license : ℕ
rpmtag_license = 1014

abbrev pub rpmtag_packager : ℕ
rpmtag_packager = 1015

abbrev pub rpmtag_url : ℕ
rpmtag_url = 1020

abbrev pub rpmtag_os : ℕ
rpmtag_os = 1021

abbrev pub rpmtag_arch : ℕ
rpmtag_arch = 1022

abbrev pub rpmtag_prein : ℕ
rpmtag_prein = 1023

abbrev pub rpmtag_postin : ℕ
rpmtag_postin = 1024

abbrev pub rpmtag_filesizes : ℕ
rpmtag_filesizes = 1028

abbrev pub rpmtag_filemodes : ℕ
rpmtag_filemodes = 1030

abbrev pub rpmtag_filemtimes : ℕ
rpmtag_filemtimes = 1034

abbrev pub rpmtag_filedigests : ℕ
rpmtag_filedigests = 1035

abbrev pub rpmtag_filelinktos : ℕ
rpmtag_filelinktos = 1036

abbrev pub rpmtag_fileflags : ℕ
rpmtag_fileflags = 1037

abbrev pub rpmtag_fileusername : ℕ
rpmtag_fileusername = 1039

abbrev pub rpmtag_filegroupname : ℕ
rpmtag_filegroupname = 1040

abbrev pub rpmtag_fileverifyflags : ℕ
rpmtag_fileverifyflags = 1045

abbrev pub rpmtag_providename : ℕ
rpmtag_providename = 1047

abbrev pub rpmtag_requireflags : ℕ
rpmtag_requireflags = 1048

abbrev pub rpmtag_requirename : ℕ
rpmtag_requirename = 1049

abbrev pub rpmtag_requireversion : ℕ
rpmtag_requireversion = 1050

abbrev pub rpmtag_preinprog : ℕ
rpmtag_preinprog = 1085

abbrev pub rpmtag_postinprog : ℕ
rpmtag_postinprog = 1086

abbrev pub rpmtag_filedevices : ℕ
rpmtag_filedevices = 1095

abbrev pub rpmtag_fileinodes : ℕ
rpmtag_fileinodes = 1096

abbrev pub rpmtag_provideflags : ℕ
rpmtag_provideflags = 1112

abbrev pub rpmtag_provideversion : ℕ
rpmtag_provideversion = 1113

abbrev pub rpmtag_dirindexes : ℕ
rpmtag_dirindexes = 1116

abbrev pub rpmtag_basenames : ℕ
rpmtag_basenames = 1117

abbrev pub rpmtag_dirnames : ℕ
rpmtag_dirnames = 1118

abbrev pub rpmtag_payloadformat : ℕ
rpmtag_payloadformat = 1124

abbrev pub rpmtag_longfilesizes : ℕ
rpmtag_longfilesizes = 5008

abbrev pub rpmtag_longsize : ℕ
rpmtag_longsize = 5009

abbrev pub rpmtag_filedigestalgo : ℕ
rpmtag_filedigestalgo = 5011

abbrev pub rpmtag_bugurl : ℕ
rpmtag_bugurl = 5012

abbrev pub rpmtag_encoding : ℕ
rpmtag_encoding = 5062

abbrev pub rpmtag_payloaddigest : ℕ
rpmtag_payloaddigest = 5092

abbrev pub rpmtag_payloaddigestalgo : ℕ
rpmtag_payloaddigestalgo = 5093

abbrev pub rpmtag_headeri18ntable : ℕ
rpmtag_headeri18ntable = 100

abbrev pub rpmtag_sha256header : ℕ
rpmtag_sha256header = 273

abbrev pub sense_any : ℕ
sense_any = 0

abbrev pub sense_less : ℕ
sense_less = 2

abbrev pub sense_greater : ℕ
sense_greater = 4

abbrev pub sense_equal : ℕ
sense_equal = 8

abbrev pub hash_sha256 : ℕ
hash_sha256 = 8
