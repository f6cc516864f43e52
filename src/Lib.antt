-- ===== src/Lib.antt =====
-- A verification of the programs of a course on real-time systems, written in C for VxWorks: the
-- semester project, which drives a stepper motor to a position received over UDP and shows its history
-- over HTTP, and the laboratory programs lab1 to lab7. Paths are from the root of the repository.
--
-- The parts, the file that models each, and how state and operations correspond to the code:
--
-- Base: the shared helpers. Base/Lists has the list operations over the native numbers, Base/Int the
-- integers, Base/Words the wrap-around of the machine integers (u8, i8, i32, u32, u64 of the code),
-- and Base/Tests the Boolean tests.
--
-- Motor: semestral_project/src/stepper_motor.c and include/stepper_motor.h. The record `Motor` holds
-- the shared structure of include/shared.h, the static variables, and a log of the register writes and
-- interrupt calls, newest first. `get_pwm`, `set_motor_dutycycle`, `motor_isr`, `motor_init` and
-- `motor_cleanup` are the functions of those names; what MOTOR_SR reads as is an argument. The loop of
-- `motor` is the relation `Motor.Task.Step`, whose steps are interleaved with the interrupt handler
-- and with the receiver of semestral_project/src/server.c, which changes the target and then gives the
-- semaphore that the loop takes. Motor/Pwm is about the duty and its word, Motor/Isr about a single
-- interrupt, Motor/Quadrature about the position, Motor/Control about the closed loop with a motor
-- that turns one phase per interrupt in the direction of its duty, Motor/Section about the part of the loop that masks the interrupt, Motor/Service about one request from the message to the duty, and Motor/Fresh about what may come in between.
--
-- History: the cyclic arrays of include/shared.h, their writer `update_statistics` in
-- semestral_project/src/statistics_updater.c (`update`, one round; `run`, the loop), their reader in
-- `generate_html_file` of semestral_project/src/svg_generator.c (`plot_rows`), and their initial state
-- from semestral_project/src/main.c (`fresh`). The shared data of the motor, as a round reads them,
-- are an argument of `update`. History/Window has the arithmetic of the cyclic index, History/Rows
-- what the plots show, and History/Clock the times.
--
-- Float: the arithmetic of float and double in C, as IEEE 754 has it, without the sign of zero and
-- without contraction. A finite number is an integer in units of 2^-1074; Float/Rounding and
-- Float/Near bound the error of a rounded result.
--
-- Svg: semestral_project/src/svg_generator.c and include/svg_generator.h. What fprintf prints is a
-- list of pieces: a text, or a number by %i or %f. Svg has the primitives with the context, `max_min`
-- and the loop over the grid lines; Svg/Draw has `svg_draw_to_file_xy`, and Svg/Page has
-- `generate_html_file` with the text that server_http.c prints around it. Svg/Markup is a reader of
-- the printed markup, and Svg/Shapes, Svg/Groups and Svg/Document follow it through the elements.
-- Svg/Lines and Svg/Ends are about the distance of the grid lines, Svg/Integers, Svg/Plottable and
-- Svg/Plot about plots of integers, Svg/Accuracy about where a point of the data is drawn,
-- Svg/Extremes about `max_min`, Svg/Flat about plots of one value, and Svg/Stuck with Svg/Page/Hang
-- about ticks that do not move. The conversion to int of what is no int has no meaning in C; here an
-- infinity and nan give 0, and a number loses its fraction only.
--
-- Http: semestral_project/src/server_http.c. The answer to one client and the accepting loop are lists
-- of system calls; what recv, fdopen, accept and taskSpawn answer is an argument, and so is whether the
-- printing of the page ends. Http/Descriptors counts how often a descriptor is closed.
--
-- Udp: `run_udp_srv` of semestral_project/src/server.c, as the receiver and as the transmitter, and
-- `create_tasks` of semestral_project/src/main.c. Udp/Steering joins two
-- boards by the events that can happen on both and a network that keeps every message that was sent and
-- may deliver it at any time, more than once, or never; Udp/Follow joins the sender on one with the task
-- and the motor on the other. Udp/Roles has which part a board takes.
--
-- Diggers: the worker functions of lab2_mutex_semaphore/task2.c and lab3_real_time_processes/company.c
-- as step relations on the counts of the semaphores. The two differ by the count of soil, which is
-- here a step of both. Time is left out: a wait with a timeout may end at any moment. Diggers/Safety
-- is about shovels and soil, Diggers/Progress about who can go on, Diggers/Supply about the steps to
-- more soil.
--
-- Introduction: lab1_introduction/test_project/test.c, its tasks round by round.
--
-- Crew: the command loop of `CreateTasks` in lab2_mutex_semaphore/task2.c; company.c has the same
-- commands except 'E'. The id that taskSpawn returns is an argument, and an access outside of an array of ids is `none`. Crew/Stacks has the two stacks of tasks that the arrays stand for, Crew/Overrun the guard of 'I', and Crew/Names the names of the tasks; what sprintf prints for %d is a parameter there. CompanyMain is `main` of company.c around these commands: it takes its place in
-- the registry first and gives it up at its end; what all others do to the registry meanwhile is part
-- of each of its rounds. A return from main ends the program; what the kernel then does to its workers
-- is left out.
--
-- Registry: `init_shm` of lab3_real_time_processes/shm.c over the structures of structs.h, and the
-- uses of the registry in company.c and monitor.c. What the calls of the kernel answer is the record
-- `Kernel`; the lock is taken and given by `sem_take` and `sem_give`. Registry/Shared has what the processes do to the registry as events in any order, and the
-- places that it stands for, Registry/Counts and Registry/Late the soil of one company among them;
-- Registry/Monitor is `main` of monitor.c, with the events between any two of its readings.
--
-- Priority: lab4_priority_inheritance_kernel_module. The times of utils.c are `timespec_subtract`,
-- `time_to_ms` and the loop of tHPrio; `CreateTasks` of main.c is `create_tasks` in Priority/Setup.
-- The fields of a timespec do not wrap; an int does. Priority/Tasks has the three tasks of utils.c as
-- a step relation on the mutex, which has been created, and on the flag `end`. Priority/Work has the
-- busy work of the tasks. Priority/Scheduler adds the scheduler of the kernel, for any number of CPUs: a
-- parameter that says which task each CPU has, with the hypothesis that a ready task is kept from a CPU on
-- which it may run only by a ready task of at least its priority, where a task that holds an
-- inversion-safe mutex has the priority of the one that waits for it. As main.c sets the affinities, the
-- low and the middle task may run on CPU 0 only, the high task on any. Priority/Scheduler/Blocked is about
-- the mutex, Priority/Scheduler/Inversion about who runs.
--
-- Cache: lab5_cache_memory_influences. A pointer into the array is the index of its element, so that
-- the array is a list of indices; the results of rand() are arguments. Cache/Printing has
-- `measureCache` with the lines that it prints.
--
-- Events: lab6_response_time_async_events. The handler and a round of the service task are functions
-- on the histograms and the count of the semaphore; the monitor is a loop over the histograms that
-- each of its rounds finds. Events/Setup has `CreateTasks`, with the writes to the registers of the
-- timer.
--
-- Latency: lab7_ethernet_communication_latency. The payload, what the listener sends back, and the
-- histogram of the sender from the readings of its clock; Latency/Session has the guards of the set-up
-- and the loop of the listener, Latency/Report the sender as a whole, and Latency/Order its rounds as a bag.
--
-- Loops and fuel: a loop over a range is structural recursion on the rounds left. The copying loop of
-- the plots compares indices for equality and runs on fuel, one more than the array has entries, which
-- is enough because the window is shorter than the array. The loop of the monitor runs on fuel above
-- the number of its measurements, and the sizes of the cache measurement, which double from 256 to a
-- million, on 13 rounds or more. The two loops over the grid lines run on fuel, and nothing is drawn
-- where it runs out. Loops without an end (the task of the motor, the statistics, the workers) are
-- step relations or runs over a list of inputs.
--
-- Not modelled: the addresses of sockets, the digits that printf prints of a number, the time that
-- busy work takes, the kernel of VxWorks, and its scheduler, which is a parameter.
pub mod Base
pub mod Introduction
pub mod Float
pub mod Motor
pub mod History
pub mod Svg
pub mod Http
pub mod Udp
pub mod Diggers
pub mod Crew
pub mod CompanyMain
pub mod Registry
pub mod Cache
pub mod Priority
pub mod Events
pub mod Latency
